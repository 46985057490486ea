-- ===== src/Fas1/Fragment/Split.antt =====
-- What `fragmentPacket` makes of a packet: legal fragments whose bodies are the packet.
use fipwave.Common.{
  ℕ, zero, suc, ◌+◌, ◌-◌, ◌*◌, ◌%◌, ◌<◌, ◌≤◌, ◌≡◌, refl, sym, ap, ap₂, ◌∙◌, ◌⊎◌, if◌then◌else◌, inl,
  inr, dec_lt, arith, List, [], ◌∷◌, ◌++◌, length, take, drop, All, ok, min, fail_if_ok,
  ok-injective, length-take, length-drop, take-append-drop, drop-drop, drop-all, ltb, ◌||◌, false,
  ◌==◌,
}
use fipwave.Fas1.{Fas1Unit, Fas1Sender, sender_a, sender_b, sender_code, validate_unit}
use fipwave.Fas1.Validate.{IsLegal, validate_unit_iff}
use fipwave.Fas1.Fragment.{
  FragmentPacketInput, ceil_div, slice, payload_or_max, fragment_at, fragments_from,
  fragment_packet,
}
use native.Mathlib.Nat.{div-add-mod, mod-lt}

ceil_lem :
    (l p q r : ℕ)
    → p * q + r ≡ l + p - 1
    → r < p
    → 1 ≤ l
    → 1 ≤ p
    → (l ≤ q * p) × ((q - 1) * p < l) × (1 ≤ q)
ceil_lem l p zero r e s h k = absurd (omega arith)
ceil_lem l p (suc q) r e s h k = (
  omega arith,
  omega (arith, ap (λ (t : ℕ). t * p) {x = suc q - 1} {y = q} (omega arith)),
  omega arith,
)

-- The number of fragments is the least whose payloads hold the packet.
pub ceil_bounds :
    (l p : ℕ)
    → 1 ≤ l
    → 1 ≤ p
    → (l ≤ ceil_div l p * p) × ((ceil_div l p - 1) * p < l) × (1 ≤ ceil_div l p)
ceil_bounds l p h k =
    ceil_lem l p (ceil_div l p) ((l + p - 1) % p) (div-add-mod (l + p - 1) p)
      (mod-lt _ (omega arith)) h k

-- What the guards of `fragmentPacket` leave.
pub record Splits (input : FragmentPacketInput) (p c : ℕ) : Type 0 where
  pub filled : 1 ≤ length input.packet
  pub small : length input.packet ≤ 1357
  pub session : 0 < input.session_id
  pub session_fits : input.session_id ≤ 0xffff_ffff_ffff_ffff
  pub start : input.sequence_start + (c - 1) ≤ 0xffff_ffff
  pub packet : 0 < input.packet_id
  pub packet_fits : input.packet_id ≤ 0xffff_ffff
  pub payload : 1 ≤ p
  pub payload_fits : p ≤ 217
  pub count : 1 ≤ c
  pub few : c ≤ 16
  pub ceil : c ≡ ceil_div (length input.packet) p

between_lem : (a b x : ℕ) → (ltb x a || ltb b x) ≡ false → (a ≤ x) × (x ≤ b)
between_lem a b x h = ground arith

at_most_lem : (b x : ℕ) → ltb b x ≡ false → x ≤ b
at_most_lem b x h = ground arith

positive_lem : (x : ℕ) → (x == 0) ≡ false → 0 < x
positive_lem x h = ground arith

start_lem : (start c : ℕ) → c ≤ 16 → start ≤ 0xffff_ffff - (c - 1) → start + (c - 1) ≤ 0xffff_ffff
start_lem start c h k = omega arith

pub fragment_packet-Splits :
    (input : FragmentPacketInput) (units : List Fas1Unit)
    → fragment_packet input ≡ ok units
    → let p = payload_or_max input.payload_bytes in
      let c = ceil_div (length input.packet) p in
      Splits input p c × (units ≡ fragments_from input p c c 0)
unfolding fragment_packet
fragment_packet-Splits input units h =
    let p : ℕ = payload_or_max input.payload_bytes in
    let c : ℕ = ceil_div (length input.packet) p in
    let sized = fail_if_ok _ _ _ h in
    let wide = fail_if_ok _ _ _ sized.1 in
    let active = fail_if_ok _ _ _ wide.1 in
    let starts = fail_if_ok _ _ _ active.1 in
    let numbered = fail_if_ok _ _ _ starts.1 in
    let named = fail_if_ok _ _ _ numbered.1 in
    let paid = fail_if_ok _ _ _ named.1 in
    let positive = fail_if_ok _ _ _ paid.1 in
    let counted = fail_if_ok _ _ _ positive.1 in
    let ends = fail_if_ok _ _ _ counted.1 in
    let size = between_lem _ _ _ sized.0 in
    let count = between_lem _ _ _ counted.0 in
    let start : input.sequence_start ≤ 0xffff_ffff - (c - 1) = at_most_lem _ _ ends.0 in
    (
      record {
        filled = size.0;
        small = size.1;
        session = positive_lem _ active.0;
        session_fits = at_most_lem _ _ wide.0;
        start = start_lem input.sequence_start c count.1 start;
        packet = positive_lem _ named.0;
        packet_fits = at_most_lem _ _ numbered.0;
        payload = at_most_lem _ _ positive.0;
        payload_fits = at_most_lem _ _ paid.0;
        count = count.0;
        few = count.1;
        ceil = refl;
      },
      sym (ok-injective ends.1),
    )

-- The bodies one after another.
unfoldable pub bodies : List Fas1Unit → List ℕ
bodies [] = []
bodies (u ∷ us) = u.body ++ bodies us

sender_cases : (s : Fas1Sender) → (sender_code s ≡ 1) ⊎ (sender_code s ≡ 2)
unfolding sender_code
sender_cases sender_a = inl refl
sender_cases sender_b = inr refl

-- What a fragment of `fragmentPacket` satisfies.
pub record IsPart (input : FragmentPacketInput) (p : ℕ) (u : Fas1Unit) : Type 0 where
  pub legal : validate_unit u ≡ ok tt
  pub fits : length u.body ≤ p
  pub total : u.packet_length ≡ length input.packet
  pub sequence : u.sequence ≡ input.sequence_start + u.fragment_index

-- The arithmetic of one slice.
module _ (l p c : ℕ) (few : 1 ≤ c) (rest : (c - 1) * p < l) (enough : l ≤ c * p) where
  inner_slice : (i : ℕ) → suc i < c → (i + 1) * p ≤ l
  inner_slice i h = grind arith

  last_slice : (i : ℕ) → suc i ≡ c → (i * p < l) × (l ≤ (i + 1) * p)
  last_slice i h = (
    omega (arith, ap (λ (t : ℕ). t * p) {x = c - 1} {y = i} (omega arith)),
    omega (arith, ap (λ (t : ℕ). t * p) {x = c} {y = i + 1} (omega arith)),
  )

  slice_lem :
      (i : ℕ)
      → i < c
      → min ((i + 1) * p - i * p) (l - i * p) ≡ (if i == c - 1 then l - p * (c - 1) else p)
  slice_lem i h = elim (dec_lt (suc i) c) [
    | yes q ↦ ground (arith, inner_slice i q)
    | no q ↦
        ground (
          arith,
          last_slice i (omega arith),
          ap (λ (t : ℕ). t * p) {x = c - 1} {y = i} (omega arith),
        )
  ]

  slice_bounds :
      (i : ℕ)
      → i < c
      → 1 ≤ p
      → (1 ≤ min ((i + 1) * p - i * p) (l - i * p))
        × (min ((i + 1) * p - i * p) (l - i * p) ≤ p)
        × (min ((i + 1) * p - i * p) (l - i * p) ≤ l)
  slice_bounds i h k = elim (dec_lt (suc i) c) [
    | yes q ↦ let e = inner_slice i q in (omega arith, omega arith, omega arith)
    | no q ↦ let e = last_slice i (omega arith) in (omega arith, omega arith, omega arith)
  ]

pub length-slice :
    (from to : ℕ) (bytes : List ℕ)
    → length (slice from to bytes) ≡ min (to - from) (length bytes - from)
length-slice from to bytes =
    length-take _ (drop from bytes) ∙ ap (min (to - from)) (length-drop from bytes)

module _ (input : FragmentPacketInput) (p c : ℕ) (s : Splits input p c) where
  pub bounds : (length input.packet ≤ c * p) × ((c - 1) * p < length input.packet) × (1 ≤ c)
  bounds = rw s.ceil (ceil_bounds (length input.packet) p s.filled s.payload)

  -- Every fragment but the last is full, and the last holds what remains.
  pub length-fragment_body :
      (i : ℕ)
      → i < c
      → length (fragment_at input p c i).body
        ≡ (if i == c - 1 then length input.packet - p * (c - 1) else p)
  unfolding fragment_at
  length-fragment_body i h =
      length-slice _ _ input.packet
      ∙ slice_lem (length input.packet) p c bounds.2 bounds.1 bounds.0 i h

  fragment_body_bounds :
      (i : ℕ)
      → i < c
      → (1 ≤ length (fragment_at input p c i).body)
        × (length (fragment_at input p c i).body ≤ p)
        × (length (fragment_at input p c i).body ≤ length input.packet)
  unfolding fragment_at
  fragment_body_bounds i h =
      rw (length-slice (i * p) ((i + 1) * p) input.packet)
        (slice_bounds (length input.packet) p c bounds.2 bounds.1 bounds.0 i h s.payload)

  fragment-IsLegal : (i : ℕ) → i < c → IsLegal (fragment_at input p c i)
  unfolding fragment_at sender_code
  fragment-IsLegal i h = record {
    fits = record {
      sender = sender_cases input.sender;
      session = omega arith;
      sequence = omega (arith, s.start);
      packet = omega (arith, s.packet_fits);
      index = omega (arith, s.few);
      count = omega (arith, s.few);
      total = omega (arith, s.small);
      body = omega (arith, s.payload_fits, fragment_body_bounds i h);
    };
    shape = record {
      session = s.session;
      packet = s.packet;
      few = s.few;
      index = h;
      total = s.small;
      filled = (fragment_body_bounds i h).0;
      within = (fragment_body_bounds i h).2;
    };
  }

  pub fragment-IsPart : (i : ℕ) → i < c → IsPart input p (fragment_at input p c i)
  unfolding fragment_at
  fragment-IsPart i h = record {
    legal = (validate_unit_iff (fragment_at input p c i)).1 (fragment-IsLegal i h);
    fits = (fragment_body_bounds i h).1;
    total = refl;
    sequence = refl;
  }

  pub bodies_rest :
      (left i : ℕ)
      → i + left ≡ c
      → bodies (fragments_from input p c left i) ≡ drop (i * p) input.packet
  unfolding fragments_from bodies fragment_at
  bodies_rest zero i e = sym (
      drop-all (i * p) input.packet
        (omega (arith, bounds.0, ap (λ (t : ℕ). t * p) {x = i} {y = c} (omega arith))))
  bodies_rest (suc left) i e = rw (bodies_rest left (suc i) (omega arith)) (
      ap₂ ◌++◌
        (ap (λ (n : ℕ). take n (drop (i * p) input.packet)) {x = (i + 1) * p - i * p} {y = p}
          (omega arith))
        (ap (λ (n : ℕ). drop n input.packet) {x = suc i * p} {y = i * p + p} (omega arith)
          ∙ sym (drop-drop p (i * p) input.packet))
      ∙ take-append-drop p (drop (i * p) input.packet))

  pub fragments_from-All :
      (P : Fas1Unit → Type 0) (left i : ℕ)
      → i + left ≡ c
      → ((i : ℕ) → i < c → P (fragment_at input p c i))
      → All P (fragments_from input p c left i)
  unfolding fragments_from
  fragments_from-All P zero i e h = tt
  fragments_from-All P (suc left) i e h =
      (h i (omega arith), fragments_from-All P left (suc i) (omega arith) h)

  pub length-fragments_from : (left i : ℕ) → length (fragments_from input p c left i) ≡ left
  unfolding fragments_from
  length-fragments_from zero i = refl
  length-fragments_from (suc left) i = ap suc (length-fragments_from left (suc i))

-- Fragments from an index on: each has its place as its index, the number of them all, and the
-- sequence number that lies as far from the first one.
abbrev pub Numbered : FragmentPacketInput → ℕ → ℕ → List Fas1Unit → Type 0
Numbered input c i [] = i ≡ c
Numbered input c i (u ∷ us) =
    (u.fragment_index ≡ i)
    × (u.fragment_count ≡ c)
    × (u.sequence ≡ input.sequence_start + i)
    × (u.packet_id ≡ input.packet_id)
    × Numbered input c (suc i) us

fragments_from-Numbered :
    (input : FragmentPacketInput) (p c left i : ℕ)
    → i + left ≡ c
    → Numbered input c i (fragments_from input p c left i)
unfolding fragments_from fragment_at
fragments_from-Numbered input p c zero i e = omega arith
fragments_from-Numbered input p c (suc left) i e =
    (refl, refl, refl, refl, fragments_from-Numbered input p c left (suc i) (omega arith))

-- A packet that `fragmentPacket` accepts is cut into legal DATA units of its length and number: as
-- many as the payload size asks for, none longer than it, with the indices from 0 on, the sequence
-- numbers from the first one on, the count of them all in each, and whose bodies in order are the
-- packet.
pub fragment_packet_lem :
    (input : FragmentPacketInput) (units : List Fas1Unit)
    → fragment_packet input ≡ ok units
    → All (IsPart input (payload_or_max input.payload_bytes)) units
      × Numbered input (ceil_div (length input.packet) (payload_or_max input.payload_bytes)) 0 units
      × (length units ≡ ceil_div (length input.packet) (payload_or_max input.payload_bytes))
      × (bodies units ≡ input.packet)
fragment_packet_lem input units h =
    let p = payload_or_max input.payload_bytes in
    let c = ceil_div (length input.packet) p in
    let (s, e) = fragment_packet-Splits input units h in
    rw e (
      fragments_from-All input p c s (IsPart input p) c 0 (omega arith)
          (fragment-IsPart input p c s),
      fragments_from-Numbered input p c c 0 (omega arith),
      length-fragments_from input p c s c 0,
      bodies_rest input p c s c 0 (omega arith)
          ∙ ap (λ (n : ℕ). drop n input.packet) {x = 0 * p} {y = 0} (omega arith),
    )
