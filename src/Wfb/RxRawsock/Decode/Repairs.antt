-- ===== src/Wfb/RxRawsock/Decode/Repairs.antt =====
-- The choice of the FEC packets for a block's missing data packets, against what fec_decode() wants.
use rhex_service.Base.{ℕ, zero, suc, ◌+◌, ◌≤◌, ◌≡◌, refl, ap}
use rhex_service.Base.{List, [], ◌∷◌, map, arith, inl, inr, true, Bool-cases}
use rhex_service.Base.{length, take}
use rhex_service.Wfb.Packet.{PacketBuffer}
use rhex_service.Wfb.RxRawsock.{RxEnv}
use rhex_service.Wfb.RxRawsock.Decode.{sort_packets, count_missing, Repair, find_repairs}

-- The data blocks at hand are those of the block, but for the erased ones, whose numbers from `i`
-- on are listed in order.
pub data IsErasure : ℕ → List (List ℕ) → List (List ℕ) → List ℕ → Type 0 where
  none : {i : ℕ} → IsErasure i [] [] []
  known :
      {i : ℕ} {b x : List ℕ} {bs xs : List (List ℕ)} {es : List ℕ}
      → take 1024 b ≡ x
      → IsErasure (i + 1) bs xs es
      → IsErasure i (b ∷ bs) (x ∷ xs) es
  lost :
      {i : ℕ} {b x : List ℕ} {bs xs : List (List ℕ)} {es : List ℕ}
      → IsErasure (i + 1) bs xs es
      → IsErasure i (b ∷ bs) (x ∷ xs) (i ∷ es)

-- The FEC blocks at hand are some of the block's, whose numbers from `i` on are listed in order.
pub data IsChoice : ℕ → List (List ℕ) → List ℕ → List (List ℕ) → Type 0 where
  none : {i : ℕ} {fs : List (List ℕ)} → IsChoice i fs [] []
  skip :
      {i : ℕ} {f : List ℕ} {fs : List (List ℕ)} {ns : List ℕ} {bs : List (List ℕ)}
      → IsChoice (i + 1) fs ns bs
      → IsChoice i (f ∷ fs) ns bs
  take_one :
      {i : ℕ} {f b : List ℕ} {fs : List (List ℕ)} {ns : List ℕ} {bs : List (List ℕ)}
      → take 1024 b ≡ f
      → IsChoice (i + 1) fs ns bs
      → IsChoice i (f ∷ fs) (i ∷ ns) (b ∷ bs)

-- fec_decode() restores a block with the FEC blocks `fecs` from as many of these as data blocks
-- are erased.
abbrev pub Recovers : RxEnv → List (List ℕ) → List (List ℕ) → Type 0
Recovers env blocks fecs =
    (bufs : List (List ℕ)) (erased nos : List ℕ) (chosen : List (List ℕ))
    → IsErasure 0 bufs blocks erased
    → IsChoice 0 fecs nos chosen
    → length erased ≡ length nos
    → map (take 1024) (env.fec_decode 1024 bufs chosen nos erased) ≡ blocks

-- A packet buffer holds nothing, or the packet `x`.
pub record Matches (p : PacketBuffer) (x : List ℕ) : Type 0 where
  pub checked : p.crc_correct ≡ p.valid
  pub allocated : length p.bytes ≡ 4192
  pub stored : p.valid ≡ true → take 1024 p.bytes ≡ x

-- So for each packet of a list.
abbrev pub Holds : List PacketBuffer → List (List ℕ) → Type 0
Holds [] [] = Unit
Holds [] (x ∷ xs) = ⊥
Holds (p ∷ ps) [] = ⊥
Holds (p ∷ ps) (x ∷ xs) = Matches p x × Holds ps xs

pub Holds-length :
    (ps : List PacketBuffer) (xs : List (List ℕ)) → Holds ps xs → length ps ≡ length xs
Holds-length [] [] h = refl
Holds-length [] (x ∷ xs) h = absurd h
Holds-length (p ∷ ps) [] h = absurd h
Holds-length (p ∷ ps) (x ∷ xs) h = ap suc (Holds-length ps xs h.1)

pub sort-Holds :
    (d f : ℕ) (ps : List PacketBuffer) (xs : List (List ℕ))
    → Holds ps xs
    → Holds (sort_packets d f ps).0 (sort_packets d f xs).0
      × Holds (sort_packets d f ps).1 (sort_packets d f xs).1
unfolding sort_packets
sort-Holds zero zero ps xs h = (tt, tt)
sort-Holds (suc d) zero [] [] h = (tt, tt)
sort-Holds (suc d) (suc f) [] [] h = (tt, tt)
sort-Holds zero (suc f) [] [] h = (tt, tt)
sort-Holds (suc d) zero [] (x ∷ xs) h = absurd h
sort-Holds (suc d) (suc f) [] (x ∷ xs) h = absurd h
sort-Holds zero (suc f) [] (x ∷ xs) h = absurd h
sort-Holds (suc d) zero (p ∷ ps) [] h = absurd h
sort-Holds (suc d) (suc f) (p ∷ ps) [] h = absurd h
sort-Holds zero (suc f) (p ∷ ps) [] h = absurd h
sort-Holds (suc d) zero (p ∷ ps) (x ∷ xs) h =
    let rest = sort-Holds d zero ps xs h.1 in ((h.0, rest.0), rest.1)
sort-Holds zero (suc f) (p ∷ ps) (x ∷ xs) h =
    let rest = sort-Holds zero f ps xs h.1 in (rest.0, (h.0, rest.1))
sort-Holds (suc d) (suc f) (p ∷ []) (x ∷ []) h = (h, tt)
sort-Holds (suc d) (suc f) (p ∷ []) (x ∷ y ∷ xs) h = absurd h.1
sort-Holds (suc d) (suc f) (p ∷ q ∷ ps) (x ∷ []) h = absurd h.1
sort-Holds (suc d) (suc f) (p ∷ q ∷ ps) (x ∷ y ∷ xs) h =
    let rest = sort-Holds d f ps xs h.1.1 in ((h.0, rest.0), (h.1.0, rest.1))

abbrev erased_of : List Repair → List ℕ
erased_of = map (λ r. r.erased)

abbrev nos_of : List Repair → List ℕ
nos_of = map (λ r. r.fec_no)

abbrev blocks_of : List Repair → List (List ℕ)
blocks_of = map (λ r. r.fec_block)

abbrev contents : List PacketBuffer → List (List ℕ)
contents = map (λ p. p.bytes)

-- With no packet missing none is erased.
all_known :
    (i : ℕ) (ds : List PacketBuffer) (xs : List (List ℕ))
    → Holds ds xs
    → count_missing ds ≡ 0
    → IsErasure i (contents ds) xs []
unfolding count_missing
all_known i [] [] h c = none
all_known i [] (x ∷ xs) h c = absurd h
all_known i (d ∷ ds) [] h c = absurd h
all_known i (d ∷ ds) (x ∷ xs) h c = elim (Bool-cases d.valid) [
  | inl v ↦ known (h.0.stored v) (all_known (i + 1) ds xs h.1 (ground arith))
  | inr n ↦ absurd (ground arith)
]

-- Where the missing packets of a block are no more than its FEC packets, the choice of repairs is
-- one that fec_decode() can work with: the data packets that are not erased are at hand, the
-- numbers of the erased ones are listed in order, and the FEC packets chosen were received and are
-- listed with their numbers in order.
pub find_repairs_complete :
    (di fi : ℕ) (ds fs : List PacketBuffer) (xs ys : List (List ℕ))
    → Holds ds xs
    → Holds fs ys
    → count_missing ds + count_missing fs ≤ length fs
    → IsErasure di (contents ds) xs (erased_of (find_repairs di ds fi fs))
      × IsChoice fi ys (nos_of (find_repairs di ds fi fs)) (blocks_of (find_repairs di ds fi fs))
unfolding find_repairs count_missing
find_repairs_complete di fi [] fs [] ys h g c = (none, none)
find_repairs_complete di fi [] fs (x ∷ xs) ys h g c = absurd h
find_repairs_complete di fi (d ∷ ds) [] xs ys h g c =
    (all_known di (d ∷ ds) xs h (unfold count_missing in omega arith), none)
find_repairs_complete di fi (d ∷ ds) (f ∷ fs) [] ys h g c = absurd h
find_repairs_complete di fi (d ∷ ds) (f ∷ fs) (x ∷ xs) [] h g c = absurd g
find_repairs_complete di fi (d ∷ ds) (f ∷ fs) (x ∷ xs) (y ∷ ys) h g c = elim (Bool-cases d.valid) [
  | inl v ↦
      let rest = find_repairs_complete (di + 1) fi ds (f ∷ fs) xs (y ∷ ys) h.1 g (ground arith) in
      rw (h.0.checked, v) (known (h.0.stored v) rest.0, rest.1)
  | inr n ↦ elim (Bool-cases f.valid) [
    | inl w ↦
        let rest = find_repairs_complete (di + 1) (fi + 1) ds fs xs ys h.1 g.1 (ground arith) in
        rw (h.0.checked, n, w) (lost rest.0, take_one (g.0.stored w) rest.1)
    | inr m ↦
        let rest = find_repairs_complete di (fi + 1) (d ∷ ds) fs (x ∷ xs) ys h g.1 (ground arith) in
        rw (h.0.checked, n, m) (rest.0, skip rest.1)
  ]
]
