-- ===== src/Shared/Request.antt =====
-- A request: app/core/exceptions.py, and the SQLAlchemy session that dependencies/db.py opens.
-- A handler reads and writes its view of the tables; only a commit makes the view last, and an
-- exception leaves what was committed before it.
use Prim.Native.Nat.{ℕ}
use Prim.Native.String.{String}
use mathlib.Core.Path.{◌≡◌, refl}
use mathlib.Core.Logic.{◌⊎◌, inl, inr}
use mathlib.Core.Bool.{Bool}
use mathlib.Core.Option.{Option, none, some}
use movie_api.Shared.Tests.{if◌then◌else◌}

-- The detail of an error: a fixed text, or the device-limit message with the limit in it.
pub data Detail : Type 0 where
  fixed : String → Detail
  signed_in_on : ℕ → Detail

pub data HttpError : Type 0 where
  not_found forbidden conflict unauthorized bad_request unprocessable server_error :
      Detail → HttpError

pub data Result {ℓ} (A : Type ℓ) : Type ℓ where
  ok : A → Result A
  err : HttpError → Result A

-- The tables as the session sees them, and as they were last committed.
pub record Conn {ℓ} (T : Type ℓ) : Type ℓ where
  pub current : T
  pub saved : T

abbrev pub Tx {ℓ} : Type ℓ → Type ℓ → Type ℓ
Tx T A = Conn T → Result A × Conn T

module _ {ℓ} {T A : Type ℓ} where
  abbrev pub pure : A → Tx T A
  pure a c = (ok a, c)

  abbrev pub raise : HttpError → Tx T A
  raise e c = (err e, c)

  abbrev pub gets : (T → A) → Tx T A
  gets f c = (ok (f c.current), c)

  abbrev pub or_raise : Option A → HttpError → Tx T A
  or_raise none e c = (err e, c)
  or_raise (some a) e c = (ok a, c)

module _ {ℓ} {T : Type ℓ} where
  abbrev pub modify : (T → T) → Tx T Unit
  modify f c = (ok tt, record c { current = f c.current })

  abbrev pub commit : Tx T Unit
  commit c = (ok tt, record { current = c.current; saved = c.current })

  abbrev pub raise_if : Bool → HttpError → Tx T Unit
  raise_if b e c = (if b then err e else ok tt, c)

infixl 5 ◌>>=◌ ◌>>◌
abbrev pub ◌>>=◌ {ℓ} : {T A B : Type ℓ} → Tx T A → (A → Tx T B) → Tx T B
◌>>=◌ m f c = let (r, c') = m c in elim r [ ok a ↦ f a c' | err e ↦ (err e, c') ]

abbrev pub ◌>>◌ {ℓ} : {T A B : Type ℓ} → Tx T A → Tx T B → Tx T B
m >> k = m >>= λ _. k

-- One request against the stored tables: what it answers and what is stored after it.
abbrev pub run {ℓ} : {T A : Type ℓ} → Tx T A → T → Result A × T
run m t = let (r, c) = m (record { current = t; saved = t }) in (r, c.saved)

-- A step of a service on its own tables, as part of a request on more; the step commits nothing.
abbrev pub zoom {ℓ} : {S T A : Type ℓ} → (T → S) → (T → S → T) → Tx S A → Tx T A
zoom get put m c =
    let (r, c') = m (record { current = get c.current; saved = get c.current }) in
    (r, record c { current = put c.current c'.current })

pub Result-cases {ℓ} :
    {A : Type ℓ} (r : Result A) → ((e : HttpError) × (r ≡ err e)) ⊎ ((a : A) × (r ≡ ok a))
Result-cases (ok a) = inr (a, refl)
Result-cases (err e) = inl (e, refl)
