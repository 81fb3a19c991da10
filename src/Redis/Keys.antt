-- ===== src/Redis/Keys.antt =====
-- Which users and plugins share a key.
use text.Mathlib.TextLemmas.{append_assoc, append_cancel_left, append_cancel_right}
use griffino_go.Base.{String, ◌≡◌, refl, sym, ap, ◌∙◌}
use griffino_go.Base.Text.{◌<>◌}
use griffino_go.Strings.Split.{Lacks, first_parts}
use griffino_go.Redis.{config_key}

-- Two users or plugins share a key of the store only if they are the same, where the prefixes and
-- the user ids hold no colon.
pub config_key-injective :
    (p q u v i j : String)
    → Lacks b':' p
    → Lacks b':' q
    → Lacks b':' u
    → Lacks b':' v
    → config_key p u i ≡ config_key q v j
    → (p ≡ q) × (u ≡ v) × (i ≡ j)
unfolding config_key
config_key-injective p q u v i j hp hq hu hv e =
    let (prefix, rest) = first_parts b':' ":" refl p q _ _ hp hq e in
    let split = λ (x : String). append_assoc ":" "plugin:" x in
    let (user, tail) =
      first_parts b':' ":" refl u v ("plugin:" <> i <> ":config") ("plugin:" <> j <> ":config") hu
        hv
        (ap (λ (t : String). u <> t) (sym (split (i <> ":config")))
          ∙ rest
          ∙ ap (λ (t : String). v <> t) (split (j <> ":config"))) in
    (prefix, user, append_cancel_right i j ":config" (append_cancel_left "plugin:" _ _ tail))
