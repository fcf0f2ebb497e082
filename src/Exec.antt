-- ===== src/Exec.antt =====
-- Results of fallible code, and code that reads and writes a state: what was written before an
-- error stays written.
use buat_postingan.Base.{
  ◌≡◌, refl, sym, subst, ap, ◌∙◌, ◌⊎◌, inl, inr, Bool, true, false, if◌then◌else◌,
}
use buat_postingan.Apperr.{Error}

-- `(A, error)`, of which Go's code uses one half
pub data Result (A : Type 0) : Type 0 where
  ok : A → Result A
  err : Error → Result A

abbrev pub Exec : Type 0 → Type 0 → Type 0
Exec S A = S → Result A × S

module _ {S A : Type 0} where
  abbrev pub pure : A → Exec S A
  pure a s = (ok a, s)

  abbrev pub fail : Error → Exec S A
  fail e s = (err e, s)

  abbrev pub lift : Result A → Exec S A
  lift r s = (r, s)

  abbrev pub gets : (S → A) → Exec S A
  gets f s = (ok (f s), s)

  -- The error, if any, as a value.
  abbrev pub attempt : Exec S A → Exec S (Result A)
  attempt m s = let (r, s') = m s in (ok r, s')

abbrev pub modify : {S : Type 0} → (S → S) → Exec S (Unit {0})
modify f s = (ok tt, f s)

module _ {S A B : Type 0} where
  abbrev pub proceed : Result A → (A → Exec S B) → Exec S B
  proceed (ok a) k s = k a s
  proceed (err e) k s = (err e, s)

  infixl 5 ◌>>=◌
  abbrev pub ◌>>=◌ : Exec S A → (A → Exec S B) → Exec S B
  ◌>>=◌ m k s = let (r, s') = m s in proceed r k s'

  infixl 5 ◌>>◌
  abbrev pub ◌>>◌ : Exec S A → Exec S B → Exec S B
  m >> k = m >>= λ _. k

  -- `_ = m` before the rest: an error of `m` is dropped.
  abbrev pub dropping : Exec S A → Exec S B → Exec S B
  dropping m k s = let (r, s') = m s in k s'

module _ {S A : Type 0} where
  abbrev pub settle : Result A → Exec S (Unit {0}) → Exec S A
  settle (ok a) clean s = (ok a, s)
  settle (err e) clean s = let (r, s') = clean s in (err e, s')

  -- `if err != nil { _ = clean; return err }`
  abbrev pub on_error : Exec S A → Exec S (Unit {0}) → Exec S A
  on_error m clean s = let (r, s') = m s in settle r clean s'

-- A computation that leaves the view `f` of the state alone, whatever it answers.
pub record Keeps {S A X : Type 0} (f : S → X) (m : Exec S A) : Type 0 where
  pub kept : (s : S) → f (m s).1 ≡ f s

-- A computation that leaves the view `f` of the state alone when it fails.
pub record FailKeeps {S A X : Type 0} (f : S → X) (m : Exec S A) : Type 0 where
  pub kept : (s : S) (e : Error) → (m s).0 ≡ err e → f (m s).1 ≡ f s

module _ {S A B X : Type 0} (f : S → X) where
  Keeps-proceed :
      (r : Result A) (k : A → Exec S B) → ((a : A) → Keeps f (k a)) → Keeps f (proceed r k)
  Keeps-proceed (ok a) k h = h a
  Keeps-proceed (err e) k h = record { kept = λ s. refl }

  pub Keeps-bind :
      (m : Exec S A) (k : A → Exec S B) → Keeps f m → ((a : A) → Keeps f (k a)) → Keeps f (m >>= k)
  Keeps-bind m k hm hk = record {
    kept = λ s. (Keeps-proceed (m s).0 k hk).kept (m s).1 ∙ hm.kept s;
  }

  FailKeeps-proceed :
      (r : Result A) (k : A → Exec S B) → ((a : A) → FailKeeps f (k a)) → FailKeeps f (proceed r k)
  FailKeeps-proceed (ok a) k h = h a
  FailKeeps-proceed (err e) k h = record { kept = λ s e' failed. refl }

  pub FailKeeps-bind :
      (m : Exec S A) (k : A → Exec S B)
      → Keeps f m
      → ((a : A) → FailKeeps f (k a))
      → FailKeeps f (m >>= k)
  FailKeeps-bind m k hm hk = record {
    kept = λ s e failed. (FailKeeps-proceed (m s).0 k hk).kept (m s).1 e failed ∙ hm.kept s;
  }

module _ {S A X : Type 0} (f : S → X) where
  pub Keeps-lift : (r : Result A) → Keeps {S = S} f (lift r)
  Keeps-lift r = record { kept = λ s. refl }

module _ {S A B : Type 0} where
  proceed-eq-ok :
      (r : Result A) (k : A → Exec S B) (s : S) (b : B)
      → (proceed r k s).0 ≡ ok b
      → (a : A) × (r ≡ ok a) × (proceed r k s ≡ k a s)
  proceed-eq-ok (ok a) k s b h = (a, refl, refl)
  proceed-eq-ok (err e) k s b h = cc

  -- A chain that answers has its first part answer, and goes on from there.
  pub >>=-eq-ok :
      (m : Exec S A) (k : A → Exec S B) (s : S) (b : B)
      → ((m >>= k) s).0 ≡ ok b
      → (a : A) × ((m s).0 ≡ ok a) × ((m >>= k) s ≡ k a (m s).1)
  >>=-eq-ok m k s b h = proceed-eq-ok (m s).0 k (m s).1 b h

-- A computation that changes the view `f` of the state by `g` of its answer, when it answers.
pub record Steps {S A X : Type 0} (f : S → X) (g : A → X → X) (m : Exec S A) : Type 0 where
  pub stepped : (s : S) (a : A) → (m s).0 ≡ ok a → f (m s).1 ≡ g a (f s)

module _ {S A B X : Type 0} (f : S → X) (g : B → X → X) where
  Steps-proceed :
      (r : Result A) (k : A → Exec S B) → ((a : A) → Steps f g (k a)) → Steps f g (proceed r k)
  Steps-proceed (ok a) k h = h a
  Steps-proceed (err e) k h = record { stepped = λ s b done. cc }

  pub Steps-bind :
      (m : Exec S A) (k : A → Exec S B)
      → Keeps f m
      → ((a : A) → Steps f g (k a))
      → Steps f g (m >>= k)
  Steps-bind m k hm hk = record {
    stepped =
        λ s b done. (Steps-proceed (m s).0 k hk).stepped (m s).1 b done ∙ ap (g b) (hm.kept s);
  }

module _ {S A B : Type 0} where
  proceed-eq-err :
      (r : Result A) (k : A → Exec S B) (s : S) (e : Error)
      → (proceed r k s).0 ≡ err e
      → ((r ≡ err e) × ((proceed r k s).1 ≡ s)) ⊎ ((a : A) × (r ≡ ok a) × (proceed r k s ≡ k a s))
  proceed-eq-err (ok a) k s e h = inr (a, refl, refl)
  proceed-eq-err (err e') k s e h = inl (cc, refl)

  -- A chain that fails does so in its first part, or after it.
  pub >>=-eq-err :
      (m : Exec S A) (k : A → Exec S B) (s : S) (e : Error)
      → ((m >>= k) s).0 ≡ err e
      → (((m s).0 ≡ err e) × (((m >>= k) s).1 ≡ (m s).1))
        ⊎ ((a : A) × ((m s).0 ≡ ok a) × ((m >>= k) s ≡ k a (m s).1))
  >>=-eq-err m k s e h = proceed-eq-err (m s).0 k (m s).1 e h

module _ {S A : Type 0} where
  settle-eq-err :
      (r : Result A) (clean : Exec S (Unit {0})) (s : S) (e : Error)
      → (settle r clean s).0 ≡ err e
      → (r ≡ err e) × ((settle r clean s).1 ≡ (clean s).1)
  settle-eq-err (ok a) clean s e h = cc
  settle-eq-err (err e') clean s e h = (h, refl)

  -- An error is that of the computation, and what it left is cleaned.
  pub on_error-eq-err :
      (m : Exec S A) (clean : Exec S (Unit {0})) (s : S) (e : Error)
      → (on_error m clean s).0 ≡ err e
      → ((m s).0 ≡ err e) × ((on_error m clean s).1 ≡ (clean (m s).1).1)
  on_error-eq-err m clean s e h = settle-eq-err (m s).0 clean (m s).1 e h

  settle-eq-ok :
      (r : Result A) (clean : Exec S (Unit {0})) (s : S) (a : A)
      → (settle r clean s).0 ≡ ok a
      → (r ≡ ok a) × ((settle r clean s).1 ≡ s)
  settle-eq-ok (ok a') clean s a h = (h, refl)
  settle-eq-ok (err e) clean s a h = cc

  -- An answer is that of the computation, and nothing is cleaned.
  pub on_error-eq-ok :
      (m : Exec S A) (clean : Exec S (Unit {0})) (s : S) (a : A)
      → (on_error m clean s).0 ≡ ok a
      → ((m s).0 ≡ ok a) × ((on_error m clean s).1 ≡ (m s).1)
  on_error-eq-ok m clean s a h = settle-eq-ok (m s).0 clean (m s).1 a h

module _ {S A X : Type 0} (f : S → X) where
  pub Keeps-pure : (a : A) → Keeps {S = S} f (pure a)
  Keeps-pure a = record { kept = λ s. refl }

  pub Keeps-fail : (e : Error) → Keeps {S = S} {A = A} f (fail e)
  Keeps-fail e = record { kept = λ s. refl }

  pub Keeps-attempt : (m : Exec S A) → Keeps f m → Keeps f (attempt m)
  Keeps-attempt m h = record { kept = h.kept }

  pub Keeps-if : (b : Bool) (m n : Exec S A) → Keeps f m → Keeps f n → Keeps f (if b then m else n)
  Keeps-if true m n h k = h
  Keeps-if false m n h k = k

module _ {S A B X : Type 0} (f : S → X) where
  pub Keeps-dropping :
      (m : Exec S A) (k : Exec S B) → Keeps f m → Keeps f k → Keeps f (dropping m k)
  Keeps-dropping m k hm hk = record { kept = λ s. hk.kept (m s).1 ∙ hm.kept s }

-- A computation whose answers, with the state that it leaves, are such as `P` says.
pub record Gives {S A : Type 0} (P : A → S → Type 0) (m : Exec S A) : Type 0 where
  pub given : (s : S) (a : A) → (m s).0 ≡ ok a → P a (m s).1

module _ {S A B : Type 0} (P : B → S → Type 0) where
  pub Gives-bind : (m : Exec S A) (k : A → Exec S B) → ((a : A) → Gives P (k a)) → Gives P (m >>= k)
  Gives-bind m k h = record {
    given = λ s b done.
        let (a, got, rest) = >>=-eq-ok m k s b done in
        subst (λ p. P b p.1) (sym rest) ((h a).given (m s).1 b (sym (ap (λ p. p.0) rest) ∙ done));
  }

  -- What the first part establishes is kept by the second.
  pub Gives-after :
      (Q : A → S → Type 0) (m : Exec S A) (k : A → Exec S B)
      → Gives Q m
      → ((a : A) (s : S) (b : B) → Q a s → (k a s).0 ≡ ok b → P b (k a s).1)
      → Gives P (m >>= k)
  Gives-after Q m k hm hk = record {
    given = λ s b done.
        let (a, got, rest) = >>=-eq-ok m k s b done in
        subst (λ p. P b p.1) (sym rest)
          (hk a (m s).1 b (hm.given s a got) (sym (ap (λ p. p.0) rest) ∙ done));
  }

  pub Gives-dropping : (m : Exec S A) (k : Exec S B) → Gives P k → Gives P (dropping m k)
  Gives-dropping m k h = record { given = λ s b done. h.given (m s).1 b done }

pub ok-injective : {A : Type 0} (a b : A) → ok a ≡ ok b → a ≡ b
ok-injective a b e = cc

module _ {S A : Type 0} (P : A → S → Type 0) where
  pub Gives-if : (b : Bool) (m n : Exec S A) → Gives P m → Gives P n → Gives P (if b then m else n)
  Gives-if true m n h k = h
  Gives-if false m n h k = k

  pub Gives-fail : (e : Error) → Gives P (fail e)
  Gives-fail e = record { given = λ s a done. cc }

  pub Gives-pure : (a : A) → ((s : S) → P a s) → Gives P (pure a)
  Gives-pure a h = record { given = λ s b done. subst (λ x. P x s) (ok-injective a b done) (h s) }
