-- ===== src/Merkle/Counting.antt =====
-- Odd multiples of powers of two: how the sizes of a tree and of its right part are decomposed.
use native.Mathlib.Nat.{pow-suc, mul_assoc}
use byoda_python.Base.{
  ℕ, zero, suc, ◌+◌, ◌*◌, ◌/◌, ◌^◌, ◌<◌, ◌≤◌, ◌≡◌, refl, ap, inl, inr, arith, Bool-cases, ltb,
}

-- `e` is the lowest power of two in `n`.
abbrev pub Lowest : ℕ → ℕ → Type 0
Lowest e n = (q : ℕ) × (n ≡ 2 ^ e * (2 * q + 1))

pub pow-double : (k : ℕ) → 2 ^ suc k ≡ 2 * 2 ^ k
pow-double k = rw pow-suc (omega arith)

pub mul-double : (e x : ℕ) → 2 ^ suc e * x ≡ 2 * (2 ^ e * x)
mul-double e x = rw (pow-double e, mul_assoc 2 (2 ^ e) x) refl

pub pow-pos : (k : ℕ) → 0 < 2 ^ k
pow-pos zero = omega arith
pow-pos (suc k) = omega (arith, pow-double k, pow-pos k)

-- The lowest power in a power of two is that power.
pub Lowest-pow : (k e : ℕ) → Lowest e (2 ^ k) → e ≡ k
Lowest-pow zero zero h = refl
Lowest-pow zero (suc e) (q, h) = absurd (omega (arith, mul-double e (2 * q + 1)))
Lowest-pow (suc k) zero (q, h) = absurd (omega (arith, pow-double k))
Lowest-pow (suc k) (suc e) (q, h) =
    ap suc (Lowest-pow k e (q, omega (arith, pow-double k, mul-double e (2 * q + 1))))

half-lt : (k m : ℕ) → m < 2 ^ suc k → m / 2 < 2 ^ k
half-lt k m h = omega (arith, pow-double k)

-- A higher power adds nothing at the low end.
pub Lowest-add : (k e m : ℕ) → 0 < m → m < 2 ^ k → Lowest e (2 ^ k + m) → Lowest e m
Lowest-add zero e m p b h = absurd (omega arith)
Lowest-add (suc k) zero m p b (q, h) = (m / 2, omega (arith, pow-double k))
Lowest-add (suc k) (suc e) m p b (q, h) =
    let (q', h') =
      Lowest-add k e (m / 2) (omega (arith, pow-double k, mul-double e (2 * q + 1))) (half-lt k m b)
        (q, omega (arith, pow-double k, mul-double e (2 * q + 1))) in
    (q', omega (arith, pow-double k, mul-double e (2 * q + 1), mul-double e (2 * q' + 1), h'))

pub pow-eq-one : (k : ℕ) → 2 ^ k ≡ 1 → k ≡ 0
pow-eq-one zero h = refl
pow-eq-one (suc k) h = absurd (omega (arith, pow-double k))

-- A power of two and at most as much more is a power only if it is doubled.
pub pow-sum : (j k m : ℕ) → 0 < m → m ≤ 2 ^ j → 2 ^ j + m ≡ 2 ^ k → (k ≡ suc j) × (m ≡ 2 ^ j)
pow-sum j zero m p b h = absurd (omega (arith, pow-pos j))
pow-sum zero (suc k) m p b h = (ap suc (pow-eq-one k (omega (arith, pow-double k))), omega arith)
pow-sum (suc j) (suc k) m p b h =
    let (e, f) =
      pow-sum j k (m / 2) (omega (arith, pow-double j, pow-double k)) (omega (arith, pow-double j))
        (omega (arith, pow-double j, pow-double k)) in
    (ap suc e, omega (arith, pow-double j, pow-double k, f))

pow_mono : (j k : ℕ) → j < k → 2 * 2 ^ j ≤ 2 ^ k
pow_mono zero (suc k) h = omega (arith, pow-double k, pow-pos k)
pow_mono (suc j) (suc k) h = omega (arith, pow-double j, pow-double k, pow_mono j k)
pow_mono j zero h = absurd (omega arith)

-- A number is in one way only a power of two and at most as much more.
pub pow-part_unique :
    (j k m n : ℕ) → 0 < m → m ≤ 2 ^ j → 0 < n → n ≤ 2 ^ k → 2 ^ j + m ≡ 2 ^ k + n → j ≡ k
pow-part_unique j k m n p b q c h = elim (Bool-cases (ltb j k)) [
  | inl below ↦ absurd (omega (arith, pow_mono j k (ground arith)))
  | inr upper ↦ elim (Bool-cases (ltb k j)) [
    | inl above ↦ absurd (omega (arith, pow_mono k j (ground arith)))
    | inr lower ↦ ground arith
  ]
]
