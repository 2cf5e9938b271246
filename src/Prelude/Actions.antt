-- ===== src/Prelude/Actions.antt =====
-- Methods that act on the state of the world and may fail. What was written before an error stays
-- written, so the state comes back beside the error too.
use Prim.Native.String.{String}
use lol_overlay.Prelude.Results.{Result, ok, err, wrap, map_err}

abbrev pub Exec : Type 0 → Type 0 → Type 0
Exec W A = W → Result A × W

module _ {W A : Type 0} where
  abbrev pub pure : A → Exec W A
  pure a w = (ok a, w)

  -- `if err != nil { return …, fmt.Errorf("text …: %w", err) }`
  abbrev pub wrapping : String → Exec W A → Exec W A
  wrapping text m w = let (r, w') = m w in (map_err (wrap text) r, w')

module _ {W A B : Type 0} where
  abbrev pub continue : Result A → (A → Exec W B) → Exec W B
  continue (ok a) f w = f a w
  continue (err e) f w = (err e, w)

  infixl 10 ◌>>=◌ ◌>>◌
  abbrev pub ◌>>=◌ : Exec W A → (A → Exec W B) → Exec W B
  ◌>>=◌ m f w = let (r, w') = m w in continue r f w'

  abbrev pub ◌>>◌ : Exec W A → Exec W B → Exec W B
  m >> n = m >>= λ _. n
