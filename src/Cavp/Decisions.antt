-- ===== src/Cavp/Decisions.antt =====
-- Checks that decide a predicate, and what a failed check says (crates/cavp-validate/src/lib.rs).
use pqc_sec_inspection_cours.Prelude.{
  ◌≡◌, refl, ◌≢◌, ◌↔◌, ◌⊎◌, inl, inr, Bool, true, false, Text, codes, text_eq, text_ne, refl, ℤ,
  Result, ok, err, if◌then◌else◌, ◌>>◌,
}
use pqc_sec_inspection_cours.Cavp.Report.{CaseStatus, correct, CaseResult}
use pqc_sec_inspection_cours.Cavp.Grade.{settle, key_gen, sig_gen, sig_ver}
use pqc_sec_inspection_cours.Cavp.Fields.{Passes, Fails}

abbrev pub Rejects : Result (Unit {0}) CaseResult → Type 0
Rejects (ok _) = ⊥
Rejects (err r) = r.status ≢ correct

-- The check `r` decides `P`.
abbrev pub Decides : Result (Unit {0}) CaseResult → Type 0 → Type 0
Decides r P = (Passes r × P) ⊎ (Rejects r × (¬ P))

pub Decides-seq :
    {P Q : Type 0} (m n : Result (Unit {0}) CaseResult)
    → Decides m P
    → Decides n Q
    → Decides (m >> n) (P × Q)
Decides-seq (ok _) n (inl p) (inl q) = inl (q.0, (p.1, q.1))
Decides-seq (ok _) n (inl p) (inr q) = inr (q.0, λ h. q.1 h.1)
Decides-seq (ok _) n (inr p) d = absurd p.0
Decides-seq (err r) n (inl p) d = absurd p.0
Decides-seq (err r) n (inr p) d = inr (p.0, λ h. p.1 h.0)

-- A branch on a test for `M`, where the other branch's answer excludes `M`.
pub Decides-if :
    {M P Q : Type 0} (b : Bool) (m n : Result (Unit {0}) CaseResult)
    → (b ≡ true) ↔ M
    → Decides m P
    → Decides n Q
    → (M → Q → ⊥)
    → Decides (if b then m else n) ((M × P) ⊎ Q)
Decides-if true m n e (inl p) d apart = inl (p.0, inl (e.0 refl, p.1))
Decides-if true m n e (inr p) d apart =
    inr (p.0, elim [ inl h ↦ p.1 h.1 | inr q ↦ apart (e.0 refl) q ])
Decides-if false m n e d (inl q) apart = inl (q.0, inr q.1)
Decides-if false m n e d (inr q) apart =
    inr (q.0, elim [ inl h ↦ false_ne_true (e.1 h.0) | inr p ↦ q.1 p ])
  where
    false_ne_true : false ≡ true → ⊥
    false_ne_true x = cc

pub Decides-iff :
    {P Q : Type 0} (r : Result (Unit {0}) CaseResult) → P ↔ Q → Decides r P → Decides r Q
Decides-iff r e (inl p) = inl (p.0, e.0 p.1)
Decides-iff r e (inr p) = inr (p.0, λ q. p.1 (e.1 q))

pub key_gen-ne-sig_gen : key_gen ≢ sig_gen
unfolding codes text_eq
key_gen-ne-sig_gen = text_ne key_gen sig_gen refl

pub key_gen-ne-sig_ver : key_gen ≢ sig_ver
unfolding codes text_eq
key_gen-ne-sig_ver = text_ne key_gen sig_ver refl

pub sig_gen-ne-sig_ver : sig_gen ≢ sig_ver
unfolding codes text_eq
sig_gen-ne-sig_ver = text_ne sig_gen sig_ver refl

pub settle_iff :
    {P : Type 0} (tc_id : ℤ) (r : Result (Unit {0}) CaseResult)
    → Decides r P
    → ((settle tc_id r).status ≡ correct) ↔ P
settle_iff tc_id (ok _) (inl p) = (λ _. p.1, λ _. refl)
settle_iff tc_id (ok _) (inr p) = absurd p.0
settle_iff tc_id (err r) (inl p) = absurd p.0
settle_iff tc_id (err r) (inr p) = (λ e. absurd (p.0 e), λ h. absurd (p.1 h))

pub Fails-Rejects :
    (tc_id : ℤ) (field : Text) (s : CaseStatus) (r : Result (Unit {0}) CaseResult)
    → s ≢ correct
    → Fails tc_id field s r
    → Rejects r
Fails-Rejects tc_id field s (ok _) n f = absurd f
Fails-Rejects tc_id field s (err r) n f = λ e. n (cc (f.0, e))

-- A failure bears the id of the case.
abbrev pub Names : ℤ → Result (Unit {0}) CaseResult → Type 0
Names tc_id (ok _) = Unit
Names tc_id (err r) = r.tc_id ≡ tc_id

pub Names-seq :
    (tc_id : ℤ) (m n : Result (Unit {0}) CaseResult)
    → Names tc_id m
    → Names tc_id n
    → Names tc_id (m >> n)
Names-seq tc_id (ok _) n h k = k
Names-seq tc_id (err r) n h k = h

pub Names-if :
    (tc_id : ℤ) (b : Bool) (m n : Result (Unit {0}) CaseResult)
    → Names tc_id m
    → Names tc_id n
    → Names tc_id (if b then m else n)
Names-if tc_id true m n h k = h
Names-if tc_id false m n h k = k

pub Names-settle :
    (tc_id : ℤ) (r : Result (Unit {0}) CaseResult) → Names tc_id r → (settle tc_id r).tc_id ≡ tc_id
Names-settle tc_id (ok _) h = refl
Names-settle tc_id (err r) h = h

pub Names-Passes : (tc_id : ℤ) (r : Result (Unit {0}) CaseResult) → Passes r → Names tc_id r
Names-Passes tc_id (ok _) h = tt
Names-Passes tc_id (err r) h = absurd h

pub Names-Fails :
    (tc_id : ℤ) (field : Text) (s : CaseStatus) (r : Result (Unit {0}) CaseResult)
    → Fails tc_id field s r
    → Names tc_id r
Names-Fails tc_id field s (ok _) h = tt
Names-Fails tc_id field s (err r) h = h.1
