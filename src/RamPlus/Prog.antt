-- ===== src/RamPlus/Prog.antt =====
-- Programs that ask something of a system with a state: what the statements of
-- config/ramplus/ax_ram_plus_setup.cpp are, in their order.
abbrev pub Prog {ℓ} : Type ℓ → Type ℓ → Type ℓ
Prog S A = S → A × S

abbrev pub pure {ℓ} : {S A : Type ℓ} → A → Prog S A
pure a s = (a, s)

infixl 5 ◌>>=◌
abbrev pub ◌>>=◌ {ℓ} : {S A B : Type ℓ} → Prog S A → (A → Prog S B) → Prog S B
(m >>= f) s = let (a, s') = m s in f a s'
