-- ===== src/DeepSeek/Building.antt =====
-- What NewClient of the example gives.
use mathlib.Core.List.{List, [], ◌∷◌, ◌++◌}
use griffino_go.Base.{Option, none, some, ◌≡◌, ◌≢◌, refl, sym, subst, ap, ◌∙◌, inr, ne_of_test}
use griffino_go.Errors.{ok}
use griffino_go.Config.{Config, Env}
use griffino_go.Models.{ProviderRegistration, PluginMetadata}
use griffino_go.Client.Interface.{Client, zero_metadata}
use griffino_go.Client.Requests.{get_or}
use griffino_go.Client.New.{ClientOption, with_metadata, with_config, with_transport, provider}
use griffino_go.Client.Construction.{last_metadata, HasIdentity, new_iff}
use griffino_go.Client.Identity.{new-IsNew}
use griffino_go.DeepSeek.{metadata, chat_provider, new_client}

module _ {T : Type 0} where
  last_metadata-ne-none :
      (opts : List (ClientOption T)) (m : PluginMetadata) → last_metadata opts (some m) ≢ none
  last_metadata-ne-none [] m e = cc
  last_metadata-ne-none (with_metadata m' ∷ opts) m e = last_metadata-ne-none opts m' e
  last_metadata-ne-none (with_config c ∷ opts) m e = last_metadata-ne-none opts m e
  last_metadata-ne-none (with_transport t ∷ opts) m e = last_metadata-ne-none opts m e

  last_metadata_of_none :
      (opts : List (ClientOption T)) (m : PluginMetadata)
      → last_metadata opts none ≡ none
      → last_metadata opts (some m) ≡ some m
  last_metadata_of_none [] m e = refl
  last_metadata_of_none (with_metadata m' ∷ opts) m e = absurd (last_metadata-ne-none opts m' e)
  last_metadata_of_none (with_config c ∷ opts) m e = last_metadata_of_none opts m e
  last_metadata_of_none (with_transport t ∷ opts) m e = last_metadata_of_none opts m e

  pub new_client_total :
      (make : Config → T) (env : Env) (opts : List (ClientOption T))
      → last_metadata opts none ≡ none
      → (c : Client T) × (new_client make env opts ≡ ok c)
        × (c.metadata ≡ metadata)
        × (c.providers ≡ chat_provider ∷ [])
        × (c.consumers ≡ [])
        × (c.consumer_capabilities ≡ [])
        × (c.actions ≡ [])
  unfolding new_client metadata
  new_client_total make env opts h =
      let all = with_metadata metadata ∷ opts in
      let known : last_metadata opts (some metadata) ≡ some metadata =
        last_metadata_of_none opts metadata h in
      let (c, made) =
        (new_iff make env all).1 (
          inr
            (inr (subst HasIdentity (sym known) (ne_of_test "com.morcherlf.deepseek" "" refl)))) in
      let is = new-IsNew make env all c made in
      let (providers, consumers, capabilities, actions) = is.nothing_registered in
      (
        provider chat_provider c,
        rw made,
        is.metadata ∙ ap (λ (m : Option PluginMetadata). get_or m zero_metadata) known,
        ap (λ (ps : List ProviderRegistration). ps ++ chat_provider ∷ []) providers,
        consumers,
        capabilities,
        actions,
      )
