-- ===== src/Reader/Panics.antt =====
-- Readers that end with a value or an error on all bytes, and never index out of range.
use rusk.Prelude.{ℕ, ◌≢◌, [], ◌∷◌, Bool, true, false, if◌then◌else◌, arith}
use rusk.Vm.{Bytes}
use rusk.Reader.{
  Reader, Error, Result, ok, err, pure, fail, after, ◌>>=◌, read_exact, first_byte, read_le,
}

pub record NeverPanics {A : Type 0} (r : Reader A) : Type 0 where
  pub on : (bs : Bytes) → r bs ≢ err Error.panicked

pub NeverPanics-pure : {A : Type 0} (a : A) → NeverPanics (pure a)
unfolding pure
NeverPanics-pure a = record { on = λ bs h. cc }

pub NeverPanics-fail : {A : Type 0} (e : Error) → e ≢ Error.panicked → NeverPanics (fail {A = A} e)
unfolding fail
NeverPanics-fail e h = record { on = λ bs p. h (cc) }

pub NeverPanics-bind :
    {A B : Type 0} {r : Reader A} (f : A → Reader B)
    → NeverPanics r
    → ((a : A) → NeverPanics (f a))
    → NeverPanics (r >>= f)
unfolding ◌>>=◌ after
NeverPanics-bind {A} {B} {r} f h k = record { on = λ bs. step bs (r bs) (h.on bs) }
  where
    step :
        (bs : Bytes) (m : Result (A × Bytes))
        → m ≢ err Error.panicked
        → after m f ≢ err Error.panicked
    step bs (ok (a, rest)) p q = (k a).on rest q
    step bs (err e) p q = p (cc)

pub NeverPanics-if :
    {A : Type 0} (b : Bool) (r s : Reader A)
    → NeverPanics r
    → NeverPanics s
    → NeverPanics (if b then r else s)
NeverPanics-if true r s h k = h
NeverPanics-if false r s h k = k

pub NeverPanics-exact : (e : Error) (n : ℕ) → e ≢ Error.panicked → NeverPanics (read_exact e n)
unfolding read_exact
NeverPanics-exact e n h = record { on = λ bs p. ground (arith, h) }

pub NeverPanics-first : (e : Error) → e ≢ Error.panicked → NeverPanics (first_byte e)
unfolding first_byte
NeverPanics-first e h = record { on = at_byte }
  where
    at_byte : (bs : Bytes) → first_byte e bs ≢ err Error.panicked
    at_byte [] p = h (cc)
    at_byte (b ∷ bs) p = cc

pub NeverPanics-le : (e : Error) (w : ℕ) → e ≢ Error.panicked → NeverPanics (read_le e w)
unfolding read_le
NeverPanics-le e w h = NeverPanics-bind _ (NeverPanics-exact e w h) λ bs. NeverPanics-pure _
