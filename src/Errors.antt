-- ===== src/Errors.antt =====
-- The error type of the vault layer (src/error.rs). A constructor keeps the values that callers read;
-- message texts and the wrapped errors of third-party packages are left out.
use obsidian_mcp.Common.{ℕ, Bool, true, false, Option, none, some, ◌≡◌, refl, ap, ◌⊎◌, inl, inr}
use obsidian_mcp.Text.{Text}

pub data StorageErrorKind : Type 0 where
  unavailable permission_denied unsupported protocol remote_failure projection_failure :
      StorageErrorKind
  invalid_source conflict identity_changed warming resource_limit : StorageErrorKind

pub data MutationOutcome : Type 0 where
  not_dispatched not_committed committed unknown : MutationOutcome

pub data VaultError : Type 0 where
  storage : StorageErrorKind → MutationOutcome → VaultError
  note_not_found directory_not_found : Text → VaultError
  invalid_path invalid_source_range : VaultError
  source_changed : Text → Text → Text → VaultError
  semantic_resource_limit : ℕ → ℕ → VaultError
  embedding_input_too_long : ℕ → ℕ → VaultError
  embedding_configuration embedding_cache_incompatible : VaultError
  embedding_request : Bool → Option ℕ → VaultError
  frontmatter_parse invalid_frontmatter : Text → VaultError
  -- whether the kind of the I/O error is `NotFound`
  io : Bool → VaultError
  already_exists : Text → VaultError
  patch_target_not_found : Text → Text → Text → VaultError
  outside_vault : Text → VaultError
  invalid_regex invalid_date_format : Text → VaultError
  watcher tantivy embedding daemon_ipc daemon_protocol daemon_unavailable : VaultError
  -- the codes that the program raises are negative: the magnitude is kept
  daemon_rpc : ℕ → VaultError
  daemon_timeout : ℕ → VaultError
  daemon_bootstrap other : VaultError

-- `is_not_found`
unfoldable pub is_not_found : VaultError → Bool
is_not_found (note_not_found p) = true
is_not_found (directory_not_found p) = true
is_not_found (io not_found) = not_found
is_not_found _ = false

-- `with_mutation_outcome`
unfoldable pub with_mutation_outcome : MutationOutcome → VaultError → VaultError
with_mutation_outcome outcome (storage kind previous) = storage kind outcome
with_mutation_outcome outcome e = e

-- `VaultResult<T>`
pub data Result {ℓ} (T : Type ℓ) : Type ℓ where
  err : VaultError → Result T
  ok : T → Result T

-- The `?` operator.
infixl 5 ◌>>=◌
abbrev pub ◌>>=◌ {ℓ κ} : {T : Type ℓ} {U : Type κ} → Result T → (T → Result U) → Result U
err e >>= next = err e
ok t >>= next = next t

infixl 5 ◌>>◌
abbrev pub ◌>>◌ {ℓ} : {B : Type ℓ} → Result (Unit {0}) → Result B → Result B
m >> k = m >>= λ _. k

-- `if bad { return Err(e) }`
abbrev pub refuse_if : Bool → VaultError → Result (Unit {0})
refuse_if true e = err e
refuse_if false e = ok tt

-- `option.ok_or_else(|| e)`
abbrev pub ok_or {ℓ} : {A : Type ℓ} → VaultError → Option A → Result A
ok_or e none = err e
ok_or e (some a) = ok a

pub Result-cases {ℓ} :
    {A : Type ℓ} (r : Result A) → ((a : A) × (r ≡ ok a)) ⊎ ((e : VaultError) × (r ≡ err e))
Result-cases (ok a) = inl (a, refl)
Result-cases (err e) = inr (e, refl)

pub ok-injective {ℓ} : {A : Type ℓ} {a b : A} → ok a ≡ ok b → a ≡ b
ok-injective h = cc

-- A chain of calls that succeeds: its first call did.
pub >>=-inversion {ℓ κ} :
    {B : Type κ} {A : Type ℓ} (next : A → Result B) (first : Result A) {last : B}
    → (first >>= next) ≡ ok last
    → record { middle : A; begun : first ≡ ok middle; ended : next middle ≡ ok last }
>>=-inversion next (err e) h = cc
>>=-inversion next (ok middle) h = record { middle = middle; begun = refl; ended = h }

pub >>-inversion {ℓ} :
    {A : Type ℓ} (first : Result (Unit {0})) (next : Result A) {last : A}
    → (first >> next) ≡ ok last
    → (first ≡ ok tt) × (next ≡ ok last)
>>-inversion (err e) next h = cc
>>-inversion (ok tt) next h = (refl, h)

pub refuse_if-ok : (b : Bool) (e : VaultError) → refuse_if b e ≡ ok tt → b ≡ false
refuse_if-ok true e h = cc
refuse_if-ok false e h = refl

pub ok_or-inversion {ℓ} :
    {A : Type ℓ} (e : VaultError) (o : Option A) {a : A} → ok_or e o ≡ ok a → o ≡ some a
ok_or-inversion e none h = cc
ok_or-inversion e (some b) h = ap some (ok-injective h)
