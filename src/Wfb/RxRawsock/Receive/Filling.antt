-- ===== src/Wfb/RxRawsock/Receive/Filling.antt =====
-- The packets of one block through `process_payload`, in any order, into free buffers.
use rhex_service.Base.{
  ℕ, zero, suc, ◌+◌, ◌-◌, ◌*◌, ◌%◌, ◌^◌, ◌≤◌, ◌<◌, ◌≡◌, refl, sym, ap, ap₂, ◌∙◌,
}
use rhex_service.Base.{
  List, [], ◌∷◌, map, arith, Bool, true, false, if◌then◌else◌, Bool-cases, inl, inr,
}
use rhex_service.Base.{
  length, get_or, set, take, replicate, All, memcpy, length-memcpy, take-memcpy, take_all,
}
use rhex_service.Wfb.Packet.{PacketBuffer}
use rhex_service.Wfb.RxRawsock.{Receiver, RxEnv}
use rhex_service.Wfb.RxRawsock.Decode.{sort_packets, count_missing}
use rhex_service.Wfb.RxRawsock.Decode.Repairs.{Matches, Holds}
use rhex_service.Wfb.RxRawsock.Decode.Delivery.{}
use rhex_service.Wfb.RxRawsock.Receive.{no_packet, store_packet, process_payload}
use rhex_service.Wfb.RxRawsock.Receive.Steps.{
  receiving, packet_of, stored_at, process_numbered_same, process_payload_numbered,
}

-- The packets of the block `b` in the places `ks` arrive one after the other.
unfoldable pub receive_places : RxEnv → ℕ → List (List ℕ) → List ℕ → Receiver → Receiver
receive_places env b pkts [] rx = rx
receive_places env b pkts (k ∷ ks) rx =
    receive_places env b pkts ks (process_payload env (packet_of b k (get_or pkts k [])) rx)

-- Which of the places have been seen, and how many have not.
abbrev pub seen : List ℕ → List Bool → List Bool
seen [] flags = flags
seen (k ∷ ks) flags = seen ks (set flags k true)

abbrev pub count_false : List Bool → ℕ
count_false [] = 0
count_false (f ∷ fs) = (if f then 0 else 1) + count_false fs

abbrev pub missing_places : List ℕ → ℕ
missing_places ks = count_false (seen ks (replicate 12 false))

abbrev pub valid_flags : List PacketBuffer → List Bool
valid_flags = map (λ p. p.valid)

Holds-get :
    (ps : List PacketBuffer) (xs : List (List ℕ)) (k : ℕ)
    → Holds ps xs
    → k < length xs
    → Matches (get_or ps k no_packet) (get_or xs k [])
Holds-get [] [] k h lt = absurd (omega arith)
Holds-get [] (x ∷ xs) k h lt = absurd h
Holds-get (p ∷ ps) [] k h lt = absurd h
Holds-get (p ∷ ps) (x ∷ xs) zero h lt = h.0
Holds-get (p ∷ ps) (x ∷ xs) (suc k) h lt = Holds-get ps xs k h.1 (omega arith)

Holds-set :
    (ps : List PacketBuffer) (xs : List (List ℕ)) (k : ℕ) (p' : PacketBuffer)
    → Holds ps xs
    → Matches p' (get_or xs k [])
    → Holds (set ps k p') xs
Holds-set [] [] k p' h m = tt
Holds-set [] (x ∷ xs) k p' h m = absurd h
Holds-set (p ∷ ps) [] k p' h m = absurd h
Holds-set (p ∷ ps) (x ∷ xs) zero p' h m = (m, h.1)
Holds-set (p ∷ ps) (x ∷ xs) (suc k) p' h m = (h.0, Holds-set ps xs k p' h.1 m)

valid_flags-set :
    (ps : List PacketBuffer) (k : ℕ) (p' : PacketBuffer)
    → p'.valid ≡ true
    → valid_flags (set ps k p') ≡ set (valid_flags ps) k true
valid_flags-set [] k p' e = refl
valid_flags-set (p ∷ ps) zero p' e = ap (λ v. v ∷ valid_flags ps) e
valid_flags-set (p ∷ ps) (suc k) p' e = ap (λ r. p.valid ∷ r) (valid_flags-set ps k p' e)

-- Storing a packet of the block keeps the buffer in agreement with it.
store_packet-Matches :
    (b k : ℕ) (x : List ℕ) (p : PacketBuffer)
    → length x ≡ 1024
    → Matches p x
    → Matches (store_packet (packet_of b k x) p) x
      × ((store_packet (packet_of b k x) p).valid ≡ true)
unfolding store_packet
store_packet-Matches b k x p len m = elim (Bool-cases p.crc_correct) [
  | inl c ↦ simp c (m, sym m.checked ∙ c)
  | inr n ↦ rw n (
    record {
      checked = refl;
      allocated = length-memcpy p.bytes 0 _ ∙ m.allocated;
      stored = λ v. copied;
    },
    refl,
  )
]
  where
    data_len : (4 + length x + 2 ^ 64 - 4) % 2 ^ 64 ≡ 1024
    data_len = omega (arith, len)

    copied : take 1024 (memcpy p.bytes 0 (take ((4 + length x + 2 ^ 64 - 4) % 2 ^ 64) x)) ≡ x
    copied =
        ap (λ n. take 1024 (memcpy p.bytes 0 (take n x))) data_len
        ∙ ap (λ y. take 1024 (memcpy p.bytes 0 y)) (take_all 1024 x (omega (arith, len)))
        ∙ ap (λ n. take n (memcpy p.bytes 0 x)) {x = 1024} {y = 0 + length x} (omega (arith, len))
        ∙ take-memcpy p.bytes 0 x (omega (arith, len, m.allocated))

pub count_missing_flags : (ps : List PacketBuffer) → count_missing ps ≡ count_false (valid_flags ps)
unfolding count_missing
count_missing_flags [] = refl
count_missing_flags (p ∷ ps) = ap (λ r. (if p.valid then 0 else 1) + r) (count_missing_flags ps)

-- Sorting the packets of a block loses none.
pub count_missing-sort :
    (d f : ℕ) (ps : List PacketBuffer)
    → length ps ≡ d + f
    → count_missing (sort_packets d f ps).0 + count_missing (sort_packets d f ps).1
      ≡ count_missing ps
unfolding sort_packets count_missing
count_missing-sort zero zero [] e = omega arith
count_missing-sort zero zero (p ∷ ps) e = absurd (omega arith)
count_missing-sort (suc d) zero [] e = absurd (omega arith)
count_missing-sort (suc d) (suc f) [] e = absurd (omega arith)
count_missing-sort zero (suc f) [] e = absurd (omega arith)
count_missing-sort (suc d) zero (p ∷ ps) e =
    omega (arith, count_missing-sort d zero ps (omega arith))
count_missing-sort zero (suc f) (p ∷ ps) e =
    omega (arith, count_missing-sort zero f ps (omega arith))
count_missing-sort (suc d) (suc f) (p ∷ []) e = absurd (omega arith)
count_missing-sort (suc d) (suc f) (p ∷ q ∷ ps) e =
    omega (arith, count_missing-sort d f ps (omega arith))

module _ (env : RxEnv) (b : ℕ) (pkts : List (List ℕ)) (twelve : length pkts ≡ 12)
    (long : (k : ℕ) → k < 12 → length (get_or pkts k []) ≡ 1024) (fits : 12 * b + 12 ≤ 2 ^ 32) where
  -- The buffers after some places of the block have arrived.
  pub record IsFilling (pbl : List PacketBuffer) (flags : List Bool) : Type 0 where
    pub holds : Holds pbl pkts
    pub arrived : valid_flags pbl ≡ flags

  pub receive_places-IsFilling :
      (ks : List ℕ) (pbl : List PacketBuffer) (flags : List Bool) (rx : Receiver)
      → All (λ k. k < 12) ks
      → IsFilling pbl flags
      → (pbl' : List PacketBuffer) × (receive_places env b pkts ks (receiving b pbl rx)
          ≡ receiving b pbl' rx)
        × IsFilling pbl' (seen ks flags)
  unfolding receive_places
  receive_places-IsFilling [] pbl flags rx small v = (pbl, refl, v)
  receive_places-IsFilling (k ∷ ks) pbl flags rx small v =
      let x = get_or pkts k [] in
      let old = Holds-get pbl pkts k v.holds (omega (arith, twelve, small.0)) in
      let new = store_packet-Matches b k x (get_or pbl k no_packet) (long k small.0) old in
      let filled = stored_at (packet_of b k x) k pbl in
      let rest = receive_places-IsFilling ks filled (set flags k true) rx small.1 (record {
        holds = Holds-set pbl pkts k _ v.holds new.0;
        arrived = valid_flags-set pbl k _ new.1 ∙ ap (λ f. set f k true) v.arrived;
      }) in
      (
        rest.0,
        ap (receive_places env b pkts ks) (
              process_payload_numbered env b k x (receiving b pbl rx) small.0
                (omega (arith, small.0, fits))
              ∙ process_numbered_same env b k (packet_of b k x) pbl rx)
            ∙ rest.1,
        rest.2,
      )

-- A packet buffer that waits for a packet.
pub record IsFree (p : PacketBuffer) : Type 0 where
  pub invalid : p.valid ≡ false
  pub unchecked : p.crc_correct ≡ false
  pub allocated : length p.bytes ≡ 4192

pub free-Holds :
    (ps : List PacketBuffer) (xs : List (List ℕ))
    → All IsFree ps
    → length ps ≡ length xs
    → Holds ps xs × (valid_flags ps ≡ replicate (length xs) false)
free-Holds [] [] h e = (tt, refl)
free-Holds [] (x ∷ xs) h e = absurd (omega arith)
free-Holds (p ∷ ps) [] h e = absurd (omega arith)
free-Holds (p ∷ ps) (x ∷ xs) h e =
    let rest = free-Holds ps xs h.1 (omega arith) in
    (
      (
        record {
          checked = h.0.unchecked ∙ sym h.0.invalid;
          allocated = h.0.allocated;
          stored = λ v. absurd (cc (sym h.0.invalid ∙ v));
        },
        rest.0,
      ),
      ap₂ ◌∷◌ h.0.invalid rest.1,
    )
