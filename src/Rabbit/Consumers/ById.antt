-- ===== src/Rabbit/Consumers/ById.antt =====
-- Which registration an action id finds.
use griffino_go.Base.{
  String, ◌==◌, Option, none, some, List, [], ◌∷◌, ◌≡◌, refl, if◌then◌else◌, arith,
}
use griffino_go.Base.Maps.{Map, lookup, insert, lookup-insert}
use griffino_go.Models.{ActionRegistration}
use griffino_go.Rabbit.Consumers.{add_by_id}

abbrev pub or_else_of :
    Option ActionRegistration → Option ActionRegistration → Option ActionRegistration
or_else_of none other = other
or_else_of (some reg) other = some reg

-- the last registration with an id, looked for from the end of the list
abbrev pub last_with : String → List ActionRegistration → Option ActionRegistration
last_with id [] = none
last_with id (reg ∷ regs) =
    or_else_of (last_with id regs) (if reg.action_id == id then some reg else none)

or_else_of-if :
    (o : Option ActionRegistration) (s id : String) (reg : ActionRegistration)
    (r : Option ActionRegistration)
    → or_else_of o (if s == id then some reg else r)
      ≡ or_else_of (or_else_of o (if s == id then some reg else none)) r
or_else_of-if none s id reg r = ground arith
or_else_of-if (some reg') s id reg r = refl

lookup-add_by_id_after :
    (id : String) (regs : List ActionRegistration) (by_id : Map ActionRegistration)
    → lookup id (add_by_id regs by_id) ≡ or_else_of (last_with id regs) (lookup id by_id)
lookup-add_by_id_after id [] by_id = refl
lookup-add_by_id_after id (reg ∷ regs) by_id =
    rw
      (
        lookup-add_by_id_after id regs (insert reg.action_id reg by_id),
        lookup-insert reg.action_id id reg by_id,
      )
      (or_else_of-if (last_with id regs) reg.action_id id reg (lookup id by_id))

or_else_of-none : (o : Option ActionRegistration) → or_else_of o none ≡ o
or_else_of-none none = refl
or_else_of-none (some reg) = refl

-- Of the actions that were registered under one id the last one is found, and under an id that none
-- was registered under nothing is.
pub lookup-add_by_id :
    (id : String) (regs : List ActionRegistration)
    → lookup id (add_by_id regs []) ≡ last_with id regs
unfolding lookup
lookup-add_by_id id regs =
    rw (lookup-add_by_id_after id regs []) (or_else_of-none (last_with id regs))
