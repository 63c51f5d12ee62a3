-- ===== src/Dragonite/Proc/Cases.antt =====
-- Case distinctions on what a handler of ax_dragonite_proc.c copies and parses.
use android_device_axion_com.Base.{ℕ}
use android_device_axion_com.Dragonite.Proc.{Parsed, parsed, unparsed}

-- What holds on both branches holds of the choice.
pub parsed_cases {ℓ κ} :
    {A : Type ℓ} {S : Type κ} (P : S → Type 0) (o : Parsed A) {n : ℕ → S} {f : A → S}
    → ((e : ℕ) → P (n e))
    → ((a : A) → P (f a))
    → P (elim o as (λ _. S) [ unparsed e ↦ n e | parsed a ↦ f a ])
parsed_cases P (unparsed e) pn ps = pn e
parsed_cases P (parsed a) pn ps = ps a
