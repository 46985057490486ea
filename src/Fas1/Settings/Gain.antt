-- ===== src/Fas1/Settings/Gain.antt =====
-- The gain of acoustic-protocol.ts and its product with 1000, which is rounded to a double.
use fipwave.Common.{ℕ, ◌+◌, ◌*◌, ◌≤◌, ◌≡◌, arith, false}
use fipwave.Fas1.Settings.{nearest, thousandfold, gain_thousandths, bad_gain}

-- A gain that is not refused is in range, and its product is a whole number.
pub gain_bounds :
    (gain : ℕ)
    → bad_gain gain ≡ false
    → (4503599627370496 ≤ gain)
      × (gain ≤ 9007199254740992)
      × (thousandfold gain ≡ gain_thousandths gain * 4503599627370496)
unfolding bad_gain gain_thousandths
gain_bounds gain h = (ground arith, ground arith, ground arith)

nearest_512 : (x : ℕ) → (x ≤ nearest 512 x * 512 + 256) × (nearest 512 x * 512 ≤ x + 256)
unfolding nearest
nearest_512 x = (ground arith, ground arith)

nearest_1024 : (x : ℕ) → (x ≤ nearest 1024 x * 1024 + 512) × (nearest 1024 x * 1024 ≤ x + 512)
unfolding nearest
nearest_1024 x = (ground arith, ground arith)

pub thousandfold_near :
    (gain : ℕ) → (gain * 1000 ≤ thousandfold gain + 512) × (thousandfold gain ≤ gain * 1000 + 512)
unfolding thousandfold
thousandfold_near gain =
    let low = nearest_512 (gain * 1000) in
    let high = nearest_1024 (gain * 1000) in
    (ground (arith, low.0, high.0), ground (arith, low.1, high.1))
