-- ===== src/RamPlus/Holds.antt =====
-- What holds of the view before and after a program, one rule for each way to build a program.
use android_device_axion_com.Base.{◌≡◌, Bool, true, false, refl, not, if◌then◌else◌}
use android_device_axion_com.RamPlus.Os.{Os, IsAndroid, View, Call, is_quiet}
use android_device_axion_com.RamPlus.Prog.{Prog, pure, ◌>>=◌}

-- From a view with `P`, `m` ends with an answer and a view that have `Q`.
pub record Holds (os : Os) {A : Type 0} (P : View → Type 0) (m : Prog os.State A)
    (Q : A → View → Type 0) : Type 0 where
  pub at : (s : os.State) → P (os.view s) → Q (m s).0 (os.view (m s).1)

-- `m` leaves the view as it is.
pub record IsQuiet (os : Os) {A : Type 0} (m : Prog os.State A) : Type 0 where
  pub at : (s : os.State) → os.view (m s).1 ≡ os.view s

module _ {os : Os} {A : Type 0} {P : View → Type 0} {Q : A → View → Type 0} where
  pub Holds-pure : (a : A) → ((v : View) → P v → Q a v) → Holds os P (pure a) Q
  Holds-pure a f = record { at = λ s h. f (os.view s) h }

  pub Holds-if :
      (b : Bool) {m n : Prog os.State A}
      → (b ≡ true → Holds os P m Q)
      → (b ≡ false → Holds os P n Q)
      → Holds os P (if b then m else n) Q
  Holds-if true hm hn = hm refl
  Holds-if false hm hn = hn refl

  pub Holds-unless :
      (b : Bool) {m n : Prog os.State A}
      → (b ≡ false → Holds os P m Q)
      → (b ≡ true → Holds os P n Q)
      → Holds os P (if not b then m else n) Q
  Holds-unless false hm hn = hm refl
  Holds-unless true hm hn = hn refl

  pub Holds-end :
      {m : Prog os.State A} → IsQuiet os m → ((a : A) (v : View) → P v → Q a v) → Holds os P m Q
  Holds-end {m} q f = record { at = λ s p. f (m s).0 (os.view (m s).1) (rw (q.at s) p) }

  pub Holds-from :
      {P' : View → Type 0} {m : Prog os.State A}
      → ((v : View) → P v → P' v)
      → Holds os P' m Q
      → Holds os P m Q
  Holds-from f h = record { at = λ s p. h.at s (f (os.view s) p) }

module _ {os : Os} {A B : Type 0} {P : View → Type 0} {Q : B → View → Type 0} where
  pub Holds-bind :
      {R : A → View → Type 0} {m : Prog os.State A} {f : A → Prog os.State B}
      → Holds os P m R
      → ((a : A) → Holds os (R a) (f a) Q)
      → Holds os P (m >>= f) Q
  Holds-bind {m} hm hf = record { at = λ s p. (hf (m s).0).at (m s).1 (hm.at s p) }

  pub Holds-quiet :
      {m : Prog os.State A} {f : A → Prog os.State B}
      → IsQuiet os m
      → ((a : A) → Holds os P (f a) Q)
      → Holds os P (m >>= f) Q
  Holds-quiet {m} q hf = record { at = λ s p. (hf (m s).0).at (m s).1 (rw (q.at s) p) }

module _ {os : Os} {A : Type 0} where
  pub IsQuiet-pure : (a : A) → IsQuiet os (pure a)
  IsQuiet-pure a = record { at = λ s. refl }

  pub IsQuiet-if :
      (b : Bool) {m n : Prog os.State A}
      → IsQuiet os m
      → IsQuiet os n
      → IsQuiet os (if b then m else n)
  IsQuiet-if true hm hn = hm
  IsQuiet-if false hm hn = hn

module _ {os : Os} {A B : Type 0} where
  pub IsQuiet-bind :
      {m : Prog os.State A} {f : A → Prog os.State B}
      → IsQuiet os m
      → ((a : A) → IsQuiet os (f a))
      → IsQuiet os (m >>= f)
  IsQuiet-bind {m} qm qf = record { at = λ s. rw ((qf (m s).0).at (m s).1) (qm.at s) }

pub IsQuiet-ask : {os : Os} → IsAndroid os → (c : Call) → is_quiet c ≡ true → IsQuiet os (os.ask c)
IsQuiet-ask law c h = record { at = λ s. law.quiet c s h }
