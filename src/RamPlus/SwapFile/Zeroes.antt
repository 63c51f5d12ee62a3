-- ===== src/RamPlus/SwapFile/Zeroes.antt =====
-- `WriteZeroes`: its range and its end.
use android_device_axion_com.Base.{
  ℕ, zero, suc, ◌+◌, ◌-◌, ◌≤◌, ◌<◌, ◌≡◌, min, Bool, true, false, Bool-cases, inl, inr, refl, ltb,
  leb, not, ◌&&◌, ◌||◌, if◌then◌else◌, arith,
}
use android_device_axion_com.RamPlus.Os.{Os, IsAndroid, write}
use android_device_axion_com.RamPlus.Prog.{Prog, pure, ◌>>=◌}
use android_device_axion_com.RamPlus.SwapFile.{write_loop, write_zeroes, write_chunk_bytes}

is_in : ℕ → ℕ → ℕ → Bool
is_in a b i = leb a i && ltb i b

none_in : (a b i : ℕ) → b ≤ a → is_in a b i ≡ false
unfolding is_in
none_in a b i h = ground arith

chunk_left : (n a b : ℕ) → a < b → b - a ≤ suc n → b - (a + min write_chunk_bytes (b - a)) ≤ n
chunk_left n a b h enough = omega arith

-- Where `m` succeeds, byte `i` is filled if it is from byte `a` and before byte `b`, or was filled before.
record Fills (os : Os) (a b i : ℕ) (m : Prog os.State Bool) : Type 0 where
  pub at :
      (s : os.State)
      → (m s).0 ≡ true
      → (is_in a b i || os.filled s i) ≡ true
      → os.filled (m s).1 i ≡ true

Fills-unless :
    {os : Os} {a b i : ℕ} (c : Bool) {m n : Prog os.State Bool}
    → (c ≡ false → Fills os a b i m)
    → (c ≡ true → Fills os a b i n)
    → Fills os a b i (if not c then m else n)
Fills-unless false hm hn = hm refl
Fills-unless true hm hn = hn refl

Fills-pure : {os : Os} {a b i : ℕ} (r : Bool) → (r ≡ true → b ≤ a) → Fills os a b i (pure r)
Fills-pure {a} {b} {i} r h = record { at = λ s e f. rw (none_in a b i (h e)) at f }

still_filled :
    (a b c i : ℕ) (old new : Bool)
    → new ≡ (if is_in a (a + c) i then true else old)
    → (is_in a b i || old) ≡ true
    → (is_in (a + c) b i || new) ≡ true
unfolding is_in
still_filled a b c i old new e f = ground arith

Fills-write :
    {os : Os}
    → IsAndroid os
    → {a b i : ℕ} (c : ℕ) {n : Prog os.State Bool} → Fills os (a + c) b i n
    → Fills os a b i (do r ← os.ask (write c a); if not r then pure false else n)
unfolding is_in
Fills-write {os} law {a} {b} {i} c {n} h = record {
  at = λ s. written s (os.ask (write c a) s).0 refl;
}
  where
    written :
        (s : os.State) (r : Bool)
        → (os.ask (write c a) s).0 ≡ r
        → ((if not r then pure false else n) (os.ask (write c a) s).1).0 ≡ true
        → (is_in a b i || os.filled s i) ≡ true
        → os.filled ((if not r then pure false else n) (os.ask (write c a) s).1).1 i ≡ true
    written s false e done f = cc
    written s true e done f =
        h.at (os.ask (write c a) s).1 done
          (still_filled a b c i (os.filled s i) _ (law.fill c a i s e) f)

in_range : (a b i : ℕ) (old : Bool) → a ≤ i → i < b → (is_in a b i || old) ≡ true
unfolding is_in
in_range a b i old from before = ground arith

module _ {os : Os} (law : IsAndroid os) where
  write_loop-Fills : (n a b i : ℕ) → b - a ≤ n → Fills os a b i (write_loop os n a b)
  unfolding write_loop
  write_loop-Fills zero a b i enough = Fills-pure (leb b a) λ e. ground arith
  write_loop-Fills (suc n) a b i enough =
      Fills-unless (ltb a b) (λ e. Fills-pure true λ _. ground arith)
        λ e. Fills-write law (min write_chunk_bytes (b - a)) (
          write_loop-Fills n (a + min write_chunk_bytes (b - a)) b i
            (chunk_left n a b (ground arith) enough))

module _ (os : Os) (law : IsAndroid os) where
  -- Where `WriteZeroes` succeeds, every byte from `start` and before `end` is filled.
  pub write_zeroes-filled :
      (start end i : ℕ) (s : os.State)
      → (write_zeroes os start end s).0 ≡ true
      → start ≤ i
      → i < end
      → os.filled (write_zeroes os start end s).1 i ≡ true
  unfolding write_zeroes
  write_zeroes-filled start end i s done from before =
      (write_loop-Fills law (end - start) start end i (omega arith)).at s done
        (in_range start end i (os.filled s i) from before)

module _ (os : Os)
    (written : (size offset : ℕ) (s : os.State) → (os.ask (write size offset) s).0 ≡ true) where
  write_loop-done : (n a b : ℕ) (s : os.State) → b - a ≤ n → (write_loop os n a b s).0 ≡ true
  unfolding write_loop
  write_loop-done zero a b s enough = ground arith
  write_loop-done (suc n) a b s enough = elim (Bool-cases (ltb a b)) [
    | inl e ↦
        rw (e, written (min write_chunk_bytes (b - a)) a s)
          (write_loop-done n (a + min write_chunk_bytes (b - a)) b
            (os.ask (write (min write_chunk_bytes (b - a)) a) s).1
            (chunk_left n a b (ground arith) enough))
    | inr e ↦ rw e refl
  ]

  -- `WriteZeroes` ends with success where no write fails.
  pub write_zeroes-done : (start end : ℕ) (s : os.State) → (write_zeroes os start end s).0 ≡ true
  unfolding write_zeroes
  write_zeroes-done start end s = write_loop-done (end - start) start end s (omega arith)
