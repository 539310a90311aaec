-- ===== src/Server/Total.antt =====
-- Programs that never panic, with the number of response heads that they send to the client.
use always_cache.Base.{ℕ, ◌+◌, List, [], ◌∷◌, ◌++◌, ◌≡◌, refl, arith}
use always_cache.Go.Panic.{Call, returns}
use always_cache.Tee.{Sent, head, bytes}
use always_cache.Server.State.{World, M, ◌>>=◌, pure, lift, gets, modify}

-- The response heads that a client has got.
abbrev pub heads : List Sent → ℕ
heads [] = 0
heads (head code h ∷ sent) = heads sent + 1
heads (bytes b ∷ sent) = heads sent

pub heads-append : (xs ys : List Sent) → heads (xs ++ ys) ≡ heads xs + heads ys
heads-append [] ys = omega arith
heads-append (head code h ∷ xs) ys = omega (arith, heads-append xs ys)
heads-append (bytes b ∷ xs) ys = heads-append xs ys

-- From every state the program returns a result with `P`, and the client has got `n` heads more.
pub record Total {S A : Type 0} (P : A → Type 0) (n : A → ℕ) (m : M S A) : Type 0 where
  pub run :
      (w : World S)
      → (x : A) × (w' : World S) × (m w ≡ returns (x, w'))
        × P x
        × (heads w'.client.sent ≡ heads w.client.sent + n x)

-- The program sends no head.
abbrev pub Silent : {S A : Type 0} → M S A → Type 0
Silent m = Total (λ _. Unit {0}) (λ _. 0) m

module _ {S : Type 0} where
  pub pure-Total : {A : Type 0} {P : A → Type 0} → (x : A) → P x → Total {S = S} P (λ _. 0) (pure x)
  unfolding pure
  pure-Total x p = record { run = λ w. (x, w, refl, p, omega arith) }

  pub gets-Total : {A : Type 0} → (f : World S → A) → Silent (gets f)
  unfolding gets
  gets-Total f = record { run = λ w. (f w, w, refl, tt, omega arith) }

  pub lift-Total :
      {A : Type 0} {P : A → Type 0}
      → (c : Call A) (x : A) → c ≡ returns x
      → P x
      → Total {S = S} P (λ _. 0) (lift c)
  unfolding lift
  lift-Total c x e p = record { run = λ w. (x, w, rw e, p, omega arith) }

  pub modify-Total :
      (f : World S → World S) (n : ℕ)
      → ((w : World S) → heads (f w).client.sent ≡ heads w.client.sent + n)
      → Total (λ _. Unit {0}) (λ _. n) (modify f)
  unfolding modify
  modify-Total f n e = record { run = λ w. (tt, f w, refl, tt, e w) }

  pub bind-Total :
      {A B : Type 0} {P : A → Type 0} {Q : A → B → Type 0} {R : B → Type 0} {n : A → ℕ}
      {k : A → B → ℕ} {t : B → ℕ} {m : M S A} {f : A → M S B}
      → Total P n m
      → ((x : A) → P x → Total (Q x) (k x) (f x))
      → ((x : A) (y : B) → Q x y → R y × (n x + k x y ≡ t y))
      → Total R t (m >>= f)
  unfolding ◌>>=◌
  bind-Total first rest sum = record {
    run = λ w.
        let (x, v, e₁, p, h₁) = first.run w in
        let (y, w', e₂, q, h₂) = (rest x p).run v in
        let (r, s) = sum x y q in (y, w', rw e₁ e₂, r, omega (arith, h₁, h₂, s));
  }

  -- What comes before it sends nothing.
  pub then-Total :
      {A B : Type 0} {P : A → Type 0} {Q : B → Type 0} {t : B → ℕ} {m : M S A} {f : A → M S B}
      → Total P (λ _. 0) m
      → ((x : A) → P x → Total Q t (f x))
      → Total Q t (m >>= f)
  then-Total first rest = bind-Total first rest (λ x y q. (q, omega arith))

  pub weaken-Total :
      {B : Type 0} {P R : B → Type 0} {n t : B → ℕ} {m : M S B}
      → Total P n m
      → ((y : B) → P y → R y × (n y ≡ t y))
      → Total R t m
  weaken-Total total sum = record {
    run = λ w.
        let (y, w', e, p, h) = total.run w in
        let (r, s) = sum y p in (y, w', e, r, omega (arith, h, s));
  }
