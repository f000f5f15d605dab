-- ===== src/Blocks/Emission.antt =====
-- rusk/src/lib/node.rs: what is minted with each block, and its split.
use rusk.Prelude.{
  ℕ, zero, suc, ◌+◌, ◌-◌, ◌*◌, ◌≡◌, refl, ◌≤◌, ◌<◌, leb, ◌==◌, if◌then◌else◌, arith, sym, ap,
  Bool-cases, inl, inr,
}

-- In Lux, of which a Dusk has 10 ^ 9.
unfoldable pub emission_amount : ℕ → ℕ
emission_amount block_height =
    if block_height == 0
    then 0
    else if leb block_height 12_614_400
    then 19_857_400_000
    else if leb block_height 25_228_800
    then 9_928_700_000
    else if leb block_height 37_843_200
    then 4_964_350_000
    else if leb block_height 50_457_600
    then 2_482_180_000
    else if leb block_height 63_072_000
    then 1_241_090_000
    else if leb block_height 75_686_400
    then 620_540_000
    else if leb block_height 88_300_800
    then 310_270_000
    else if leb block_height 100_915_200
    then 155_140_000
    else if leb block_height 113_529_596
    then 77_570_000
    else if block_height == 113_529_597
    then 54_280_000
    else 0

-- What the blocks up to a height mint together.
unfoldable pub minted : ℕ → ℕ
minted zero = 0
minted (suc h) = minted h + emission_amount (suc h)

minted-suc : (h : ℕ) → minted (suc h) ≡ minted h + emission_amount (suc h)
unfolding minted
minted-suc h = refl

minted-le-add : (h n : ℕ) → minted h ≤ minted (h + n)
minted-le-add h zero = let e : h + 0 ≡ h = omega arith in rw e (omega arith)
minted-le-add h (suc n) =
    let e : h + suc n ≡ suc (h + n) = omega arith in
    rw e (omega (arith, minted-suc (h + n), minted-le-add h n))

-- The blocks of a period mint the same.
minted_period :
    (start len value : ℕ)
    → ((k : ℕ) → k < len → emission_amount (suc (start + k)) ≡ value)
    → (n : ℕ) → n ≤ len
    → minted (start + n) ≡ minted start + value * n
minted_period start len value each zero h =
    let e : start + 0 ≡ start = omega arith in rw e (omega arith)
minted_period start len value each (suc n) h =
    let e : start + suc n ≡ suc (start + n) = omega arith in
    rw e (
      omega (
        arith,
        minted-suc (start + n),
        minted_period start len value each n (omega arith),
        each n (omega arith),
      ))

after_genesis : minted 0 ≡ 0
unfolding minted
after_genesis = refl

period_1 : (k : ℕ) → k < 12_614_400 → emission_amount (suc (0 + k)) ≡ 19_857_400_000
unfolding emission_amount
period_1 k h = ground arith

after_period_1 : minted 12_614_400 ≡ 250_489_186_560_000_000
after_period_1 = omega (
  arith,
  after_genesis,
  minted_period 0 12_614_400 19_857_400_000 period_1 12_614_400 (omega arith),
)

period_2 : (k : ℕ) → k < 12_614_400 → emission_amount (suc (12_614_400 + k)) ≡ 9_928_700_000
unfolding emission_amount
period_2 k h = ground arith

after_period_2 : minted 25_228_800 ≡ 375_733_779_840_000_000
after_period_2 = omega (
  arith,
  after_period_1,
  minted_period 12_614_400 12_614_400 9_928_700_000 period_2 12_614_400 (omega arith),
)

period_3 : (k : ℕ) → k < 12_614_400 → emission_amount (suc (25_228_800 + k)) ≡ 4_964_350_000
unfolding emission_amount
period_3 k h = ground arith

after_period_3 : minted 37_843_200 ≡ 438_356_076_480_000_000
after_period_3 = omega (
  arith,
  after_period_2,
  minted_period 25_228_800 12_614_400 4_964_350_000 period_3 12_614_400 (omega arith),
)

period_4 : (k : ℕ) → k < 12_614_400 → emission_amount (suc (37_843_200 + k)) ≡ 2_482_180_000
unfolding emission_amount
period_4 k h = ground arith

after_period_4 : minted 50_457_600 ≡ 469_667_287_872_000_000
after_period_4 = omega (
  arith,
  after_period_3,
  minted_period 37_843_200 12_614_400 2_482_180_000 period_4 12_614_400 (omega arith),
)

period_5 : (k : ℕ) → k < 12_614_400 → emission_amount (suc (50_457_600 + k)) ≡ 1_241_090_000
unfolding emission_amount
period_5 k h = ground arith

after_period_5 : minted 63_072_000 ≡ 485_322_893_568_000_000
after_period_5 = omega (
  arith,
  after_period_4,
  minted_period 50_457_600 12_614_400 1_241_090_000 period_5 12_614_400 (omega arith),
)

period_6 : (k : ℕ) → k < 12_614_400 → emission_amount (suc (63_072_000 + k)) ≡ 620_540_000
unfolding emission_amount
period_6 k h = ground arith

after_period_6 : minted 75_686_400 ≡ 493_150_633_344_000_000
after_period_6 = omega (
  arith,
  after_period_5,
  minted_period 63_072_000 12_614_400 620_540_000 period_6 12_614_400 (omega arith),
)

period_7 : (k : ℕ) → k < 12_614_400 → emission_amount (suc (75_686_400 + k)) ≡ 310_270_000
unfolding emission_amount
period_7 k h = ground arith

after_period_7 : minted 88_300_800 ≡ 497_064_503_232_000_000
after_period_7 = omega (
  arith,
  after_period_6,
  minted_period 75_686_400 12_614_400 310_270_000 period_7 12_614_400 (omega arith),
)

period_8 : (k : ℕ) → k < 12_614_400 → emission_amount (suc (88_300_800 + k)) ≡ 155_140_000
unfolding emission_amount
period_8 k h = ground arith

after_period_8 : minted 100_915_200 ≡ 499_021_501_248_000_000
after_period_8 = omega (
  arith,
  after_period_7,
  minted_period 88_300_800 12_614_400 155_140_000 period_8 12_614_400 (omega arith),
)

period_9 : (k : ℕ) → k < 12_614_396 → emission_amount (suc (100_915_200 + k)) ≡ 77_570_000
unfolding emission_amount
period_9 k h = ground arith

after_period_9 : minted 113_529_596 ≡ 499_999_999_945_720_000
after_period_9 = omega (
  arith,
  after_period_8,
  minted_period 100_915_200 12_614_396 77_570_000 period_9 12_614_396 (omega arith),
)

last_mint : emission_amount 113_529_597 ≡ 54_280_000
unfolding emission_amount
last_mint = refl

no_more : (k n : ℕ) → k < n → emission_amount (suc (113_529_597 + k)) ≡ 0
unfolding emission_amount
no_more k n h = ground arith

all_minted : minted 113_529_597 ≡ 500_000_000_000_000_000
all_minted = omega (arith, minted-suc 113_529_596, after_period_9, last_mint)

minted_later : (h : ℕ) → 113_529_597 ≤ h → minted h ≡ 500_000_000_000_000_000
minted_later h late =
    let n = h - 113_529_597 in
    let e : 113_529_597 + n ≡ h = omega arith in
    rw (sym e) (
      omega
        (arith, all_minted, minted_period 113_529_597 n 0 (λ k lt. no_more k n lt) n (omega arith)))

minted_before : (h : ℕ) → h ≤ 113_529_597 → minted h ≤ 500_000_000_000_000_000
minted_before h early =
    let e : h + (113_529_597 - h) ≡ 113_529_597 = omega arith in
    omega (arith, all_minted, minted-le-add h (113_529_597 - h), ap minted e)

-- The blocks up to any height mint at most 500 million Dusk together, and from the height
-- 113529597 on exactly so much.
pub minted_cap :
    (h : ℕ)
    → (minted h ≤ 500_000_000_000_000_000) × (113_529_597 ≤ h → minted h ≡ 500_000_000_000_000_000)
minted_cap h = (
  elim (Bool-cases (leb h 113_529_597)) [
    | inl early ↦ minted_before h (ground arith)
    | inr late ↦ omega (arith, minted_later h (ground arith))
  ],
  minted_later h,
)
