-- ===== src/Redis/Reading.antt =====
-- What a store reads.
use mathlib.Core.List.{[]}
use griffino_go.Base.{
  String, ◌==◌, Option, none, some, ◌≡◌, ◌≢◌, ◌↔◌, refl, subst, Bool-cases, inl, inr, eq_of_test,
  ne_of_test, test_of_ne,
}
use griffino_go.Json.{Object}
use griffino_go.Errors.{Result, ok, err, >>=-eq-ok, ok-injective}
use griffino_go.Redis.{
  StoreConfig, Reply, stored, no_key, broken, Driver, Store, config_key, new, build_options,
  get_values, decode_values, override, default_key_prefix, wrap, read_reply, or_empty,
}

module _ {O C : Type 0} (driver : Driver O C) where
  -- What the database holds under a key, as values.
  pub data Holds : Reply → Object → Type 0 where
    nothing : Holds no_key []
    no_payload : {payload : String} → payload ≡ "" → Holds (stored payload) []
    a_null :
        {payload : String}
        → payload ≢ ""
        → driver.unmarshal payload ≡ ok none
        → Holds (stored payload) []
    an_object :
        {payload : String} {m : Object}
        → payload ≢ ""
        → driver.unmarshal payload ≡ ok (some m)
        → Holds (stored payload) m

  wrap-eq-ok : {A : Type 0} (text : String) (r : Result A) {a : A} → wrap text r ≡ ok a → r ≡ ok a
  wrap-eq-ok text (ok a) e = cc
  wrap-eq-ok text (err f) e = cc

  Holds-decoded :
      (payload : String) (decoded : Option Object) {m : Object}
      → payload ≢ ""
      → driver.unmarshal payload ≡ ok decoded
      → ok (or_empty decoded) ≡ ok m
      → Holds (stored payload) m
  Holds-decoded payload none filled e same =
      subst (Holds (stored payload)) (ok-injective same) (a_null filled e)
  Holds-decoded payload (some o) filled e same =
      subst (Holds (stored payload)) (ok-injective same) (an_object filled e)

  Holds-decode_values :
      (payload : String) {m : Object}
      → decode_values driver payload ≡ ok m
      → Holds (stored payload) m
  unfolding decode_values
  Holds-decode_values payload e = elim (Bool-cases (payload == "")) [
    | inl t ↦
        subst (Holds (stored payload)) (ok-injective (rw t at e))
          (no_payload (eq_of_test payload "" t))
    | inr f ↦
        let (decoded, e₁, e₂) = >>=-eq-ok (wrap _ (driver.unmarshal payload)) _ (rw f at e) in
        Holds-decoded payload decoded (ne_of_test payload "" f)
          (wrap-eq-ok _ (driver.unmarshal payload) e₁) e₂
  ]

  Holds-read_reply :
      (key : String) (r : Reply) {m : Object} → read_reply driver key r ≡ ok m → Holds r m
  Holds-read_reply key (stored payload) e = Holds-decode_values payload e
  Holds-read_reply key no_key e = subst (Holds no_key) (ok-injective e) nothing
  Holds-read_reply key (broken f) e = cc

  read_reply_of_Holds :
      (key : String) {r : Reply} {m : Object} → Holds r m → read_reply driver key r ≡ ok m
  unfolding decode_values
  read_reply_of_Holds key nothing = refl
  read_reply_of_Holds key (no_payload {payload} empty) = rw empty
  read_reply_of_Holds key (a_null {payload} filled e) = rw (test_of_ne payload "" filled, e)
  read_reply_of_Holds key (an_object {payload} filled e) = rw (test_of_ne payload "" filled, e)

  -- A store that New made reads values exactly if the key of the user and the plugin under the
  -- prefix, which is user if none is set, is missing, or holds an empty payload or null, which give
  -- no values, or holds an object, which gives its members.
  pub get_values_iff :
      (plugin_id user_id : String) (cfg : StoreConfig) (s : Store C) (m : Object)
      → new driver plugin_id cfg ≡ ok s
      → (get_values driver s user_id ≡ ok m)
        ↔ Holds
            (driver.get s.client
              (config_key (override cfg.key_prefix default_key_prefix) user_id plugin_id))
            m
  unfolding get_values new
  get_values_iff plugin_id user_id cfg s m made =
      let (opts, _, e) = >>=-eq-ok (build_options driver cfg) _ made in
      let read : Store C → Type 0 = λ x.
        (get_values driver x user_id ≡ ok m)
        ↔ Holds
            (driver.get x.client
              (config_key (override cfg.key_prefix default_key_prefix) user_id plugin_id))
            m in
      subst read (ok-injective e) (λ h. Holds-read_reply _ _ h, λ h. read_reply_of_Holds _ h)
