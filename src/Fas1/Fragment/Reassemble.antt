-- ===== src/Fas1/Fragment/Reassemble.antt =====
-- `reassemblePacket` on the fragments of a packet, in whatever order they come.
use fipwave.Common.{
  fail_if, ◌>>◌, Bool, subst₂, ◌!=◌, ◌||◌, not, ℕ, zero, suc, ◌+◌, ◌-◌, ◌*◌, ◌<◌, ◌≤◌, ◌≡◌, refl,
  sym, ap, subst, ◌∙◌, arith, List, [], ◌∷◌, ◌++◌, length, take, All, none, some, Result, ok, true,
  false, length-take, take-append-take, take-all, ◌==◌, ltb, if◌then◌else◌,
}
use fipwave.Common.Perms.{All-perm, length-perm}
use fipwave.Fas1.{Fas1Unit, Fas1Error, validate_unit, is_data}
use fipwave.Fas1.Fragment.{
  FragmentPacketInput, ceil_div, slice, payload_or_max, fragment_at, fragments_from,
  fragment_packet, get_index, check_fragment, collect_fragments, write_fragment, write_fragments,
  reassemble_packet, IndexMap,
}
use fipwave.Fas1.Fragment.Split.{
  Splits, fragment-IsPart, fragment_packet-Splits, length-fragment_body, fragments_from-All,
  length-fragments_from, length-slice, bounds,
}
use fipwave.Fas1.Fragment.Collect.{
  entries, Fresh, Distinct, get_index-perm, Distinct-perm, Passes, collect_fragments-entries,
}
use mathlib.Core.Logic.{∥∥₁_elim}
use mathlib.Core.List.{Perm, Permᴰ}

-- What `reassemblePacket` needs to know of a fragment.
record OfPacket (input : FragmentPacketInput) (p c : ℕ) (u : Fas1Unit) : Type 0 where
  legal : validate_unit u ≡ ok tt
  is_data_unit : is_data u.type ≡ true
  session : u.session_id ≡ input.session_id
  packet : u.packet_id ≡ input.packet_id
  total : u.packet_length ≡ length input.packet
  count : u.fragment_count ≡ c
  filled :
      length u.body ≡ (if u.fragment_index == c - 1 then length input.packet - p * (c - 1) else p)

step_ok :
    {E A : Type 0} (test : Bool) (e : E) (k : Result E A) {r : Result E A}
    → test ≡ false
    → k ≡ r
    → (fail_if test e >> k) ≡ r
step_ok test e k t h = rw t h

same_lem : (a b : ℕ) → a ≡ b → (a != b) ≡ false
same_lem a b h = ground arith

le→ltb_false : (a b : ℕ) → b ≤ a → ltb a b ≡ false
le→ltb_false a b h = ground arith

module _ (input : FragmentPacketInput) (p c : ℕ) (s : Splits input p c) where
  fragment-OfPacket : (i : ℕ) → i < c → OfPacket input p c (fragment_at input p c i)
  unfolding fragment_at is_data
  fragment-OfPacket i h = record {
    legal = (fragment-IsPart input p c s i h).legal;
    is_data_unit = refl;
    session = refl;
    packet = refl;
    total = refl;
    count = refl;
    filled = length-fragment_body input p c s i h;
  }

  -- The checks compare a fragment with the first one, whichever that is.
  passes :
      (first u : Fas1Unit) → OfPacket input p c first → OfPacket input p c u → Passes first p c u
  unfolding check_fragment
  passes first u f o m new = ground arith

  fragment_at-index : (i : ℕ) → (fragment_at input p c i).fragment_index ≡ i
  unfolding fragment_at
  fragment_at-index i = refl

  -- The next body fits in the room that is left, and continues the packet.
  room :
      (i : ℕ)
      → length (slice (i * p) ((i + 1) * p) input.packet)
        ≤ length input.packet - length (take (i * p) input.packet)
  room i =
      omega
        (arith, length-slice (i * p) ((i + 1) * p) input.packet, length-take (i * p) input.packet)

  next_prefix :
      (i : ℕ)
      → take (i * p) input.packet ++ slice (i * p) ((i + 1) * p) input.packet
        ≡ take (suc i * p) input.packet
  next_prefix i =
      take-append-take (i * p) ((i + 1) * p - i * p) input.packet
      ∙ ap (λ (n : ℕ). take n input.packet) (omega arith)

  Fresh-below : (left i j : ℕ) → j < i → Fresh j (fragments_from input p c left i)
  unfolding fragments_from fragment_at
  Fresh-below zero i j h = tt
  Fresh-below (suc left) i j h = (λ e. omega arith, Fresh-below left (suc i) j (omega arith))

  fragments_from-Distinct : (left i : ℕ) → Distinct (fragments_from input p c left i)
  unfolding fragments_from fragment_at
  fragments_from-Distinct zero i = tt
  fragments_from-Distinct (suc left) i =
      (Fresh-below left (suc i) i (omega arith), fragments_from-Distinct left (suc i))

  get_index-fragments_from :
      (left i j : ℕ)
      → i ≤ j
      → j < i + left
      → get_index j (entries (fragments_from input p c left i)) ≡ some (fragment_at input p c j)
  unfolding fragments_from get_index
  get_index-fragments_from zero i j h k = absurd (omega arith)
  get_index-fragments_from (suc left) i j h k =
      ground (arith, fragment_at-index i, get_index-fragments_from left (suc i) j)

  write_fragments-packet :
      (m : IndexMap)
      → ((j : ℕ) → j < c → get_index j m ≡ some (fragment_at input p c j))
      → (left i : ℕ) → i + left ≡ c
      → write_fragments (length input.packet) m left i (take (i * p) input.packet) ≡ ok input.packet
  unfolding write_fragments write_fragment fragment_at
  write_fragments-packet m g zero i e = ap ok (
      take-all (i * p) input.packet (
        omega (arith, (bounds input p c s).0, ap (λ (t : ℕ). t * p) {x = i} {y = c} (omega arith))))
  write_fragments-packet m g (suc left) i e =
      rw (g i (omega arith), le→ltb_false _ _ (room i), next_prefix i)
        (write_fragments-packet m g left (suc i) (omega arith))

  lookups :
      (us : List Fas1Unit)
      → Permᴰ (fragments_from input p c c 0) us
      → (j : ℕ) → j < c
      → get_index j (entries us) ≡ some (fragment_at input p c j)
  lookups us d j h =
      sym (get_index-perm j d (fragments_from-Distinct c 0))
      ∙ get_index-fragments_from c 0 j (omega arith) (omega arith)

  parts :
      (us : List Fas1Unit) → Permᴰ (fragments_from input p c c 0) us → All (OfPacket input p c) us
  parts us d =
      All-perm (OfPacket input p c) d
        (fragments_from-All input p c s (OfPacket input p c) c 0 (omega arith) fragment-OfPacket)

  All-pass :
      (first : Fas1Unit) (us : List Fas1Unit)
      → OfPacket input p c first
      → All (OfPacket input p c) us
      → All (Passes first p c) us
  All-pass first [] f h = tt
  All-pass first (u ∷ us) f h = (passes first u f h.0, All-pass first us f h.1)

  All-new : (us : List Fas1Unit) → All (λ u. get_index u.fragment_index [] ≡ none) us
  unfolding get_index
  All-new [] = tt
  All-new (u ∷ us) = (refl, All-new us)

  geometry :
      (first : Fas1Unit) (rest : List Fas1Unit)
      → OfPacket input p c first
      → c ≡ length (first ∷ rest)
      → (not (is_data first.type)
          || (first.fragment_count != length (first ∷ rest))
          || (first.fragment_count != ceil_div first.packet_length p))
        ≡ false
  geometry first rest f l = ground (arith, ap (λ (n : ℕ). ceil_div n p) f.total, s.ceil)

  reassemble_perm :
      (us : List Fas1Unit)
      → Permᴰ (fragments_from input p c c 0) us
      → reassemble_packet us p ≡ ok input.packet
  unfolding reassemble_packet
  reassemble_perm [] d =
      absurd (omega (arith, s.count, length-perm d, length-fragments_from input p c s c 0))
  reassemble_perm (first ∷ rest) d =
      let us = first ∷ rest in
      let h : All (OfPacket input p c) us = parts us d in
      let f : OfPacket input p c first = h.0 in
      let l : c ≡ length us = sym (length-fragments_from input p c s c 0) ∙ length-perm d in
      let collected : collect_fragments first p (ceil_div first.packet_length p) [] us
          ≡ ok (entries us) =
        subst (λ k. collect_fragments first p k [] us ≡ ok (entries us))
          (s.ceil ∙ sym (ap (λ (n : ℕ). ceil_div n p) f.total))
          (collect_fragments-entries first p c us [] (All-pass first us f h)
            (Distinct-perm d (fragments_from-Distinct c 0)) (All-new us)) in
      let written : write_fragments first.packet_length (entries us) first.fragment_count 0 []
          ≡ ok input.packet =
        subst₂ (λ n k. write_fragments n (entries us) k 0 [] ≡ ok input.packet) (sym f.total)
          (sym f.count)
          (subst
            (λ (o : List ℕ).
              write_fragments (length input.packet) (entries us) c 0 o ≡ ok input.packet)
            (ap (λ (n : ℕ). take n input.packet) {x = 0 * p} {y = 0} (omega arith))
            (write_fragments-packet (entries us) (lookups us d) c 0 (omega arith))) in
      step_ok _ _ _ (le→ltb_false 16 (length us) (omega (arith, s.few, l))) (
        step_ok _ _ _ (le→ltb_false 217 p s.payload_fits) (
          step_ok _ _ _ (le→ltb_false p 1 s.payload) (
            rw f.legal (
              step_ok _ _ _ (geometry first rest f l)
                (rw (collected, written) (step_ok _ _ _ (same_lem _ _ (sym f.total)) refl))))))

Result-set : IsSet (Result Fas1Error (List ℕ))
Result-set = hlevel

-- The fragments of a packet, in whatever order they arrive, are put together to that packet.
pub reassemble-fragment :
    (input : FragmentPacketInput) (units us : List Fas1Unit)
    → fragment_packet input ≡ ok units
    → Perm units us
    → reassemble_packet us (payload_or_max input.payload_bytes) ≡ ok input.packet
reassemble-fragment input units us h order =
    let p = payload_or_max input.payload_bytes in
    let c = ceil_div (length input.packet) p in
    let (s, e) = fragment_packet-Splits input units h in
    ∥∥₁_elim order (Result-set _ _)
      λ d. reassemble_perm input p c s us (subst (λ xs. Permᴰ xs us) e d)
