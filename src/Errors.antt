-- ===== src/Errors.antt =====
-- errors.go: the sentinels, the SDK error and its constructors, and what `errors.Is` finds.
pub mod Hierarchy
pub mod Classified
pub mod Succeeds
use griffino_go.Base.{
  ℕ, String, Bool, false, ◌||◌, Option, none, some, List, [], ◌∷◌, ◌≡◌, refl, eqb,
}
use griffino_go.Base.Text.{◌<>◌}

pub data Sentinel : Type 0 where
  griffino configuration transport capability slot_not_configured timeout : Sentinel

-- A variable of the package and what it wraps with `%w`, outermost first.
abbrev pub chain : Sentinel → List Sentinel
chain griffino = griffino ∷ []
chain configuration = configuration ∷ griffino ∷ []
chain transport = transport ∷ griffino ∷ []
chain capability = capability ∷ griffino ∷ []
chain slot_not_configured = slot_not_configured ∷ capability ∷ griffino ∷ []
chain timeout = timeout ∷ capability ∷ griffino ∷ []

-- `foreign` is an error of another package, by its text; `wrapped` is what `fmt.Errorf` makes with
-- `%w`. An SDK error keeps its format and arguments apart; its kind is always a sentinel.
pub data Error : Type 0 where
  sentinel : Sentinel → Error
  foreign : String → Error
  wrapped : String → Error → Error
  sdk : (kind : Sentinel) → String → List String → Error
  sdk_caused : (kind : Sentinel) (cause : Error) → String → List String → Error

abbrev rank : Sentinel → ℕ
rank griffino = 0
rank configuration = 1
rank transport = 2
rank capability = 3
rank slot_not_configured = 4
rank timeout = 5

abbrev pub same : Sentinel → Sentinel → Bool
same a b = eqb (rank a) (rank b)

abbrev pub some_same : List Sentinel → Sentinel → Bool
some_same [] t = false
some_same (a ∷ as') t = same a t || some_same as' t

-- `errors.Is` for a target that is a sentinel. It follows `Unwrap`, also the one that gives a list.
unfoldable pub is : Error → Sentinel → Bool
is (sentinel a) t = some_same (chain a) t
is (foreign text) t = false
is (wrapped text e) t = is e t
is (sdk kind f args) t = some_same (chain kind) t
is (sdk_caused kind cause f args) t = some_same (chain kind) t || is cause t

unfoldable pub new_error : Sentinel → Option Error → String → List String → Error
new_error kind none f args = sdk kind f args
new_error kind (some cause) f args = sdk_caused kind cause f args

unfoldable pub config_error : String → List String → Error
unfolding new_error
config_error f args = new_error configuration none f args

unfoldable pub transport_error : Option Error → String → List String → Error
unfolding new_error
transport_error cause f args = new_error transport cause f args

unfoldable pub capability_error : Option Error → String → List String → Error
unfolding new_error
capability_error cause f args = new_error capability cause f args

unfoldable pub timeout_error : Option Error → String → List String → Error
unfolding new_error
timeout_error cause f args = new_error timeout cause f args

unfoldable pub slot_not_configured_error : String → List String → Error
unfolding new_error
slot_not_configured_error f args = new_error slot_not_configured none f args

-- `(T, error)` where the error decides
pub data Result {ℓ} (V : Type ℓ) : Type ℓ where
  err : (failure : Error) → Result V
  ok : (value : V) → Result V

-- `if err != nil { return …, err }`
infixl 5 ◌>>=◌
abbrev pub ◌>>=◌ {κ ℓ} : {V : Type κ} {W : Type ℓ} → Result V → (V → Result W) → Result W
err failure >>= next = err failure
ok value >>= next = next value

pub >>=-eq-ok {κ ℓ} :
    {V : Type κ} {W : Type ℓ} (first : Result V) (next : V → Result W) {last : W}
    → (first >>= next) ≡ ok last
    → (value : V) × (first ≡ ok value) × (next value ≡ ok last)
>>=-eq-ok (err failure) next h = cc
>>=-eq-ok (ok value) next h = (value, refl, h)

pub ok-injective {ℓ} : {V : Type ℓ} {v w : V} → ok v ≡ ok w → v ≡ w
ok-injective h = cc

-- what the variables say: each text, then that of the error it wraps
abbrev pub sentinel_text : Sentinel → String
sentinel_text griffino = "griffino: error"
sentinel_text configuration = "griffino: configuration error: griffino: error"
sentinel_text transport = "griffino: transport error: griffino: error"
sentinel_text capability = "griffino: capability error: griffino: error"
sentinel_text slot_not_configured =
    "griffino: slot not configured: griffino: capability error: griffino: error"
sentinel_text timeout = "griffino: invoke timed out: griffino: capability error: griffino: error"

-- `Error()`; `sprintf` stands for `fmt.Sprintf` on arguments that are printed already
unfoldable pub error_text : (sprintf : String → List String → String) → Error → String
error_text sprintf (sentinel s) = sentinel_text s
error_text sprintf (foreign text) = text
error_text sprintf (wrapped text e) = text <> ": " <> error_text sprintf e
error_text sprintf (sdk kind f args) = sprintf f args
error_text sprintf (sdk_caused kind cause f args) =
    sprintf f args <> ": " <> error_text sprintf cause
