-- ===== src/Router/Writing.antt =====
-- The loop that writes a response.
use easytask.Base.{
  ℕ, suc, ◌+◌, ◌≡◌, refl, inl, inr, leb, true, length, some, Text, ok, err, Io, Result-cases, arith,
}
use easytask.Router.{write_resp}

-- A writer that writes all of the bytes or errs, as io.Writer asks.
pub record IsWriter {W : Type 0} (write : Text → Io W ℕ) : Type 0 where
  pub writes_all :
      (content : Text) (w : W) (n : ℕ) → (write content w).0 ≡ ok n → n ≡ length content

module _ {W : Type 0} (write : Text → Io W ℕ) where
  leb_refl : (n : ℕ) → leb n (0 + n) ≡ true
  leb_refl n = ground arith

  -- Over a writer that writes all bytes or errs, the loop ends in its first round: the response is
  -- written by one call, and the result is that call's error or success.
  pub write_resp-once :
      (fuel : ℕ) (content : Text) (w : W)
      → IsWriter write
      → write_resp write (suc fuel) content w
        ≡ (elim (write content w).0 [ ok n ↦ ok (some tt) | err e ↦ err e ], (write content w).1)
  unfolding write_resp
  write_resp-once fuel content w writer = elim (Result-cases (write content w).0) [
    | inr (e, bad) ↦ rw bad refl
    | inl (n, good) ↦ rw (good, writer.writes_all content w n good, leb_refl (length content)) refl
  ]
