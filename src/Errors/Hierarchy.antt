-- ===== src/Errors/Hierarchy.antt =====
-- The tree of sentinels that the comment of errors.go draws, against what `errors.Is` finds.
use griffino_go.Base.{
  Bool, true, ◌||◌, Option, none, some, String, List, ◌≡◌, refl, ◌↔◌, ◌⊎◌, inl, inr, arith,
}
use griffino_go.Errors.{
  Sentinel, griffino, configuration, transport, capability, slot_not_configured, timeout, Error,
  sentinel, foreign, wrapped, sdk, sdk_caused, is, new_error, some_same, chain,
}

-- The edges of the tree in the comment, child first.
pub data ChildOf : Sentinel → Sentinel → Type 0 where
  configuration_griffino : ChildOf configuration griffino
  transport_griffino : ChildOf transport griffino
  capability_griffino : ChildOf capability griffino
  slot_capability : ChildOf slot_not_configured capability
  timeout_capability : ChildOf timeout capability

pub data Below : Sentinel → Sentinel → Type 0 where
  here : {s : Sentinel} → Below s s
  up : {s t u : Sentinel} → ChildOf s t → Below t u → Below s u

Below-trans : {s t u : Sentinel} → Below s t → Below t u → Below s u
Below-trans here q = q
Below-trans (up c p) q = up c (Below-trans p q)

Below-of_some_same : (s t : Sentinel) → some_same (chain s) t ≡ true → Below s t
Below-of_some_same griffino griffino h = here
Below-of_some_same configuration configuration h = here
Below-of_some_same configuration griffino h = up configuration_griffino here
Below-of_some_same transport transport h = here
Below-of_some_same transport griffino h = up transport_griffino here
Below-of_some_same capability capability h = here
Below-of_some_same capability griffino h = up capability_griffino here
Below-of_some_same slot_not_configured slot_not_configured h = here
Below-of_some_same slot_not_configured capability h = up slot_capability here
Below-of_some_same slot_not_configured griffino h = up slot_capability (up capability_griffino here)
Below-of_some_same timeout timeout h = here
Below-of_some_same timeout capability h = up timeout_capability here
Below-of_some_same timeout griffino h = up timeout_capability (up capability_griffino here)
Below-of_some_same _ _ h = cc

some_same_self : (s : Sentinel) → some_same (chain s) s ≡ true
some_same_self griffino = refl
some_same_self _ = refl

some_same_up :
    {s t : Sentinel} (u : Sentinel)
    → ChildOf s t
    → some_same (chain t) u ≡ true
    → some_same (chain s) u ≡ true
some_same_up griffino configuration_griffino h = ground arith
some_same_up u configuration_griffino h = ground arith
some_same_up u transport_griffino h = ground arith
some_same_up u capability_griffino h = ground arith
some_same_up u slot_capability h = ground arith
some_same_up u timeout_capability h = ground arith

some_same_of_Below : {s t : Sentinel} → Below s t → some_same (chain s) t ≡ true
some_same_of_Below (here {s}) = some_same_self s
some_same_of_Below (up {u} c p) = some_same_up u c (some_same_of_Below p)

-- The sentinels under which an error stands: those at or above its kind, and its cause's.
pub data Matches : Error → Sentinel → Type 0 where
  by_sentinel : {s t : Sentinel} → Below s t → Matches (sentinel s) t
  by_wrapped : {text : String} {e : Error} {t : Sentinel} → Matches e t → Matches (wrapped text e) t
  by_kind :
      {k t : Sentinel} {f : String} {args : List String} → Below k t → Matches (sdk k f args) t
  by_caused_kind :
      {k t : Sentinel} {cause : Error} {f : String} {args : List String}
      → Below k t
      → Matches (sdk_caused k cause f args) t
  by_cause :
      {k t : Sentinel} {cause : Error} {f : String} {args : List String}
      → Matches cause t
      → Matches (sdk_caused k cause f args) t

or-cases : (a b : Bool) → (a || b) ≡ true → (a ≡ true) ⊎ (b ≡ true)
or-cases a b h = ground arith

Matches-of_is : (e : Error) (t : Sentinel) → is e t ≡ true → Matches e t
unfolding is
Matches-of_is (sentinel s) t h = by_sentinel (Below-of_some_same s t h)
Matches-of_is (foreign text) t h = cc
Matches-of_is (wrapped text e) t h = by_wrapped (Matches-of_is e t h)
Matches-of_is (sdk k f args) t h = by_kind (Below-of_some_same k t h)
Matches-of_is (sdk_caused k cause f args) t h =
    let ih = Matches-of_is cause t in
    elim (or-cases (some_same (chain k) t) (is cause t) h) [
      | inl p ↦ by_caused_kind (Below-of_some_same k t p)
      | inr q ↦ by_cause (ih q)
    ]

is_of_Matches : {e : Error} {t : Sentinel} → Matches e t → is e t ≡ true
unfolding is
is_of_Matches (by_sentinel p) = some_same_of_Below p
is_of_Matches (by_wrapped m) = is_of_Matches m
is_of_Matches (by_kind p) = some_same_of_Below p
is_of_Matches (by_caused_kind p) = ground (arith, some_same_of_Below p)
is_of_Matches (by_cause m) = ground (arith, is_of_Matches m)

Matches-up : {e : Error} {s t : Sentinel} → Matches e s → Below s t → Matches e t
Matches-up (by_sentinel p) q = by_sentinel (Below-trans p q)
Matches-up (by_wrapped m) q = by_wrapped (Matches-up m q)
Matches-up (by_kind p) q = by_kind (Below-trans p q)
Matches-up (by_caused_kind p) q = by_caused_kind (Below-trans p q)
Matches-up (by_cause m) q = by_cause (Matches-up m q)

-- errors.Is finds in any error exactly the sentinels at or above its kind in the documented tree,
-- and those that its cause or the error it wraps stands under.
pub is_iff_Matches : (e : Error) (t : Sentinel) → (is e t ≡ true) ↔ Matches e t
is_iff_Matches e t = (Matches-of_is e t, is_of_Matches)

-- Classification goes up the tree: an error that matches a sentinel matches every sentinel that
-- stands above it.
pub is_upward : (e : Error) (s t : Sentinel) → is e s ≡ true → Below s t → is e t ≡ true
is_upward e s t h p = is_of_Matches (Matches-up (Matches-of_is e s h) p)

-- The kind of a constructed error, for the modules that only ask for it.
pub is-new_error :
    (k t : Sentinel) (cause : Option Error) (f : String) (args : List String)
    → some_same (chain k) t ≡ true
    → is (new_error k cause f args) t ≡ true
unfolding is new_error
is-new_error k t none f args h = h
is-new_error k t (some c) f args h = ground arith
