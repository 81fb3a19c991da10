-- ===== src/RoutingKeys/Distinct.antt =====
-- Which routing keys and queue names are distinct.
use Prim.Native.Char.{Char, code}
use Prim.Native.String.{[], ◌∷◌}
use text.Mathlib.TextLemmas.{
  nil-append, cons-append, append_cancel_left, append_cancel_right, head-eq_of_cons-eq,
  tail-eq_of_cons-eq, nil≢cons,
}
use griffino_go.Base.{
  String, ◌≡◌, ◌↔◌, ◌⊎◌, inl, inr, refl, sym, ap, ◌∙◌, arith, eqb, Bool-cases, if◌then◌else◌,
}
use text.Mathlib.TextEquality.{Char-path}
use griffino_go.Base.Text.{◌<>◌}
use griffino_go.Strings.Split.{first_parts}
use griffino_go.RoutingKeys.{dot, invoke_routing_key, underscored, consumer_queue_name}
use griffino_go.RoutingKeys.ActionId.{LacksDot}

-- "." or "_"
abbrev pub IsMark : Char → Type 0
IsMark c = (code c ≡ dot) ⊎ (code c ≡ b'_')

-- Invocations for users whose ids hold no dot have the same routing key only if they are for the
-- same user and the same capability type.
pub invoke_routing_key-injective :
    (u v c d : String)
    → LacksDot u
    → LacksDot v
    → invoke_routing_key u c ≡ invoke_routing_key v d
    → (u ≡ v) × (c ≡ d)
unfolding invoke_routing_key
invoke_routing_key-injective u v c d hu hv e =
    let (same, rest) =
      first_parts dot "." refl u v _ _ hu hv (append_cancel_left "invoke.griffino.router." _ _ e) in
    (same, append_cancel_right c d ".v1" rest)

-- Two texts that differ at most in having "." for "_" or "_" for "." at some places.
pub data SameButDots : String → String → Type 0 where
  both_empty : SameButDots [] []
  same_char : {c d : Char} {s t : String} → c ≡ d → SameButDots s t → SameButDots (c ∷ s) (d ∷ t)
  both_marks :
      {c d : Char} {s t : String}
      → IsMark c
      → IsMark d
      → SameButDots s t
      → SameButDots (c ∷ s) (d ∷ t)

abbrev underscore : Char
underscore = "_"

abbrev mark : Char → Char
mark c = if eqb (code c) dot then underscore else c

underscored-cons : (c : Char) (s : String) → underscored (c ∷ s) ≡ mark c ∷ underscored s
unfolding underscored
underscored-cons c s = elim (Bool-cases (eqb (code c) dot)) [
  | inl e ↦ rw e (
      cons-append underscore [] (underscored s)
      ∙ ap (λ r. underscore ∷ r) (nil-append (underscored s)))
  | inr e ↦ rw e refl
]

mark_of_IsMark : (c : Char) → IsMark c → mark c ≡ underscore
mark_of_IsMark c (inl e) = ground arith
mark_of_IsMark c (inr e) = ground (arith, Char-path c underscore e)

mark-cases : (c d : Char) → mark c ≡ mark d → (c ≡ d) ⊎ (IsMark c × IsMark d)
mark-cases c d e = elim (Bool-cases (eqb (code c) dot)) [
  | inl p ↦ elim (Bool-cases (eqb (code d) dot)) [
    | inl q ↦ inr (inl (ground arith), inl (ground arith))
    | inr q ↦ inr (inl (ground arith), inr (ap code (sym (rw (p, q) at e))))
  ]
  | inr p ↦ elim (Bool-cases (eqb (code d) dot)) [
    | inl q ↦ inr (inr (ap code (rw (p, q) at e)), inl (ground arith))
    | inr q ↦ inl (rw (p, q) at e)
  ]
]

underscored-SameButDots : (s t : String) → underscored s ≡ underscored t → SameButDots s t
unfolding underscored
underscored-SameButDots [] [] e = both_empty
underscored-SameButDots [] (d ∷ t) e = absurd (nil≢cons (e ∙ underscored-cons d t))
underscored-SameButDots (c ∷ s) [] e = absurd (nil≢cons (sym e ∙ underscored-cons c s))
underscored-SameButDots (c ∷ s) (d ∷ t) e =
    let both = sym (underscored-cons c s) ∙ e ∙ underscored-cons d t in
    let rest = underscored-SameButDots s t (tail-eq_of_cons-eq both) in
    elim (mark-cases c d (head-eq_of_cons-eq both)) [
      | inl same ↦ same_char same rest
      | inr (p, q) ↦ both_marks p q rest
    ]

underscored_of_SameButDots : {s t : String} → SameButDots s t → underscored s ≡ underscored t
underscored_of_SameButDots both_empty = refl
underscored_of_SameButDots (same_char {c} {d} {s} {t} e h) =
    rw (underscored-cons c s, underscored-cons d t) (cc (ap mark e, underscored_of_SameButDots h))
underscored_of_SameButDots (both_marks {c} {d} {s} {t} p q h) =
    rw (underscored-cons c s, underscored-cons d t)
      (cc (mark_of_IsMark c p, mark_of_IsMark d q, underscored_of_SameButDots h))

-- Two events of one plugin have the same queue exactly when they differ at most in dots and
-- underscores.
pub consumer_queue_name_iff :
    (plugin_id s t : String)
    → (consumer_queue_name plugin_id s ≡ consumer_queue_name plugin_id t) ↔ SameButDots s t
unfolding consumer_queue_name
consumer_queue_name_iff plugin_id s t = (
  λ e. underscored-SameButDots s t (
      append_cancel_left ".consumer." _ _
        (append_cancel_left plugin_id _ _ (append_cancel_left "plugin." _ _ e))),
  λ h.
      ap (λ (r : String). "plugin." <> plugin_id <> ".consumer." <> r)
        (underscored_of_SameButDots h),
)
