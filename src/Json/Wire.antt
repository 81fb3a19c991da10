-- ===== src/Json/Wire.antt =====
-- What stays of a value that is encoded and decoded: keys of an object may change their order, and
-- a number comes back as a float64. The text that a number gets on the way is up to encoding/json:
-- `int_text` and `float_text` are functions of the number alone.
use griffino_go.Base.{String, Bool, Option, none, some, [], ◌∷◌, ◌≡◌, refl, subst}
use griffino_go.Base.Int.{ℤ}
use griffino_go.Base.Maps.{lookup}
use griffino_go.Json.{
  Json, null, bool, int, float, str, arr, obj, Items, nil, cons, Members, Object, members,
  of_members, object, as_object,
}

pub members-of_members : (ms : Object) → members (of_members ms) ≡ ms
members-of_members [] = refl
members-of_members ((k, v) ∷ ms) = rw (members-of_members ms)

-- How a field reads to the type assertions of the source.
pub data Reading : Type 0 where
  missing nothing an_object other : Reading
  text : String → Reading

abbrev pub reading : Option Json → Reading
reading none = missing
reading (some null) = nothing
reading (some (str s)) = text s
reading (some (obj ms)) = an_object
reading (some _) = other

pub reading-missing : (r : Option Json) → reading r ≡ missing → r ≡ none
reading-missing none h = refl
reading-missing (some null) h = cc
reading-missing (some _) h = cc

pub reading-nothing : (r : Option Json) → reading r ≡ nothing → r ≡ some null
reading-nothing (some null) h = refl
reading-nothing _ h = cc

pub reading-text : (s : String) (r : Option Json) → reading r ≡ text s → r ≡ some (str s)
reading-text s (some (str t)) h = cc
reading-text s _ h = cc

module _ (int_text : ℤ → String) (float_text : String → String) where
  mutual
    pub data Same : Json → Json → Type 0 where
      same_null : Same null null
      same_bool : {b : Bool} → Same (bool b) (bool b)
      same_int : {n : ℤ} → Same (int n) (float (int_text n))
      same_float : {t : String} → Same (float t) (float (float_text t))
      same_str : {s : String} → Same (str s) (str s)
      same_arr : {vs vs' : Items} → SameItems vs vs' → Same (arr vs) (arr vs')
      same_obj :
          {ms ms' : Members}
          → ((k : String) → SameEntry (lookup k (members ms)) (lookup k (members ms')))
          → Same (obj ms) (obj ms')

    pub data SameItems : Items → Items → Type 0 where
      same_nil : SameItems nil nil
      same_cons :
          {v v' : Json} {vs vs' : Items}
          → Same v v'
          → SameItems vs vs'
          → SameItems (cons v vs) (cons v' vs')

    pub data SameEntry : Option Json → Option Json → Type 0 where
      same_none : SameEntry none none
      same_some : {v v' : Json} → Same v v' → SameEntry (some v) (some v')

  abbrev pub SameObject : Object → Object → Type 0
  SameObject ms ms' = (k : String) → SameEntry (lookup k ms) (lookup k ms')

  -- A field reads after decoding as it did before encoding.
  pub reading-SameEntry : {o r : Option Json} → SameEntry o r → reading r ≡ reading o
  reading-SameEntry same_none = refl
  reading-SameEntry (same_some same_null) = refl
  reading-SameEntry (same_some same_bool) = refl
  reading-SameEntry (same_some same_int) = refl
  reading-SameEntry (same_some same_float) = refl
  reading-SameEntry (same_some same_str) = refl
  reading-SameEntry (same_some (same_arr p)) = refl
  reading-SameEntry (same_some (same_obj p)) = refl

  -- The members of an object field, if it is one.
  pub same_members :
      {o r : Option Json} (ms : Object)
      → SameEntry o r
      → o ≡ some (object ms)
      → (ms' : Object) × (as_object r ≡ some ms') × SameObject ms ms'
  same_members ms same_none h = cc h
  same_members ms (same_some same_null) h = cc h
  same_members ms (same_some same_bool) h = cc h
  same_members ms (same_some same_int) h = cc h
  same_members ms (same_some same_float) h = cc h
  same_members ms (same_some same_str) h = cc h
  same_members ms (same_some (same_arr p)) h = cc h
  same_members ms (same_some (same_obj {ms = sent} {ms' = got} p)) h =
      let same : sent ≡ of_members ms = cc h in
      (
        members got,
        refl,
        rw (← members-of_members ms) (
            subst
              (λ (s : Members).
                (k : String) → SameEntry (lookup k (members s)) (lookup k (members got)))
              same p),
      )
