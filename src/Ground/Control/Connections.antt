-- ===== src/Ground/Control/Connections.antt =====
-- Every descriptor that was accepted is either in the table or closed.
use rhex_service.Base.{
  ℕ, zero, suc, ◌+◌, ◌≤◌, ◌<◌, ◌≡◌, refl, sym, ap, ◌∙◌, arith, List, [], ◌∷◌, ◌++◌, Bool, true,
  false, Option, none, some, inl, inr, some_inj, append-nil, append_assoc, subst,
}
use rhex_service.Base.{
  if◌then◌else◌, ◌==◌, get_or, set, length, replicate, length-set, length-append, if_intro,
  Bool-cases, Option-cases,
}
use rhex_service.Ground.Mavlink.{
  msg_id_heartbeat, command_long, cmd_power_shutdown, cmd_power_reboot,
}
use rhex_service.Ground.Control.{
  Control, Answers, first_free, take_client, connected, serve_client, serve_clients, poll_clients,
  control_cycle, control_cycles, started, parse_msg, parse_long, any_bit, highest, acknowledge,
  msgid, long_command,
}

none_some : {n : ℕ} → none ≡ some n → ⊥
none_some h = cc

-- How often a descriptor stands in a list.
abbrev pub count : ℕ → List ℕ → ℕ
count fd [] = 0
count fd (c ∷ cs) = (if fd == c then 1 else 0) + count fd cs

count-append : (fd : ℕ) (xs ys : List ℕ) → count fd (xs ++ ys) ≡ count fd xs + count fd ys
count-append fd [] ys = omega arith
count-append fd (x ∷ xs) ys = omega (arith, count-append fd xs ys)

-- The descriptors that accept() gave.
abbrev pub new_descriptors : Option ℕ → List ℕ
new_descriptors none = []
new_descriptors (some c) = c ∷ []

abbrev pub all_accepted : List Answers → List ℕ
all_accepted [] = []
all_accepted (a ∷ rest) = new_descriptors a.accepted ++ all_accepted rest

free_behind_suc :
    (bits : List Bool) (n : ℕ) → first_free (true ∷ bits) ≡ some (suc n) → first_free bits ≡ some n
unfolding first_free
free_behind_suc bits n h = elim (Option-cases (first_free bits)) [
  | inl e ↦ absurd (none_ne e)
  | inr (m, e) ↦ e ∙ ap some (omega (arith, found m e))
]
  where
    found : (m : ℕ) → first_free bits ≡ some m → suc m ≡ suc n
    found m e = some_inj (sym (ap (λ o. elim o [ none ↦ none | some k ↦ some (suc k) ]) e) ∙ h)

    none_ne : first_free bits ≡ none → ⊥
    none_ne e = none_some (sym (ap (λ o. elim o [ none ↦ none | some k ↦ some (suc k) ]) e) ∙ h)

-- A bit that is set puts its descriptor into the table.
connected-set-true :
    (cs : List ℕ) (bits : List Bool) (n c : ℕ)
    → first_free bits ≡ some n
    → length cs ≡ length bits
    → ((fd : ℕ)
        → count fd (connected (set cs n c) (set bits n true)) ≡ count fd (c ∷ connected cs bits))
      × (length (connected (set cs n c) (set bits n true)) ≡ suc (length (connected cs bits)))
unfolding connected first_free
connected-set-true [] [] n c free e = absurd (cc)
connected-set-true [] (b ∷ bits) n c free e = absurd (omega arith)
connected-set-true (x ∷ cs) [] n c free e = absurd (omega arith)
connected-set-true (x ∷ cs) (false ∷ bits) zero c free e = ((λ fd. refl), refl)
connected-set-true (x ∷ cs) (false ∷ bits) (suc n) c free e = absurd (omega (arith, some_inj free))
connected-set-true (x ∷ cs) (true ∷ bits) zero c free e = absurd (ground (arith, free))
connected-set-true (x ∷ cs) (true ∷ bits) (suc n) c free e =
    let rest = connected-set-true cs bits n c (free_behind_suc bits n free) (omega arith) in
    ((λ fd. omega (arith, rest.0 fd)), omega (arith, rest.1))

connected-set-false :
    (cs : List ℕ) (bits : List Bool) (i : ℕ)
    → get_or bits i false ≡ true
    → length cs ≡ length bits
    → ((fd : ℕ)
        → count fd (connected cs bits) ≡ count fd (get_or cs i 0 ∷ connected cs (set bits i false)))
      × (length (connected cs (set bits i false)) ≤ length (connected cs bits))
unfolding connected
connected-set-false [] [] i h e = absurd (cc)
connected-set-false [] (b ∷ bits) i h e = absurd (omega arith)
connected-set-false (c ∷ cs) [] i h e = absurd (omega arith)
connected-set-false (c ∷ cs) (true ∷ bits) zero h e = ((λ fd. refl), omega arith)
connected-set-false (c ∷ cs) (false ∷ bits) zero h e = absurd (cc)
connected-set-false (c ∷ cs) (true ∷ bits) (suc i) h e =
    let rest = connected-set-false cs bits i h (omega arith) in
    ((λ fd. omega (arith, rest.0 fd)), omega (arith, rest.1))
connected-set-false (c ∷ cs) (false ∷ bits) (suc i) h e =
    let rest = connected-set-false cs bits i h (omega arith) in ((λ fd. rest.0 fd), rest.1)

-- A table that is not full has a free entry.
first_free-some :
    (cs : List ℕ) (bits : List Bool)
    → length cs ≡ length bits
    → length (connected cs bits) < length bits
    → (n : ℕ) × (first_free bits ≡ some n)
unfolding connected first_free
first_free-some cs [] e h = absurd (omega arith)
first_free-some [] (b ∷ bits) e h = absurd (omega arith)
first_free-some (c ∷ cs) (false ∷ bits) e h = (0, refl)
first_free-some (c ∷ cs) (true ∷ bits) e h =
    let (n, found) = first_free-some cs bits (omega arith) (omega arith) in
    (suc n, ap (λ o. elim o [ none ↦ none | some m ↦ some (suc m) ]) found)

-- The descriptors of `acc` are those closed and those in the table, which has 32 entries.
pub record IsAccounted (acc : List ℕ) (s : Control) : Type 0 where
  pub table : length s.clients ≡ 32
  pub mask : length s.cmask ≡ 32
  pub each : (fd : ℕ) → count fd acc ≡ count fd s.closed + count fd (connected s.clients s.cmask)
  pub few : length (connected s.clients s.cmask) ≤ length acc

module _ (acc : List ℕ) where
  parse_msg-IsAccounted :
      (msg : List ℕ) (sock : ℕ) (s : Control)
      → IsAccounted acc s
      → IsAccounted acc (parse_msg msg sock s)
  unfolding parse_msg parse_long
  parse_msg-IsAccounted msg sock s v =
      if_intro (IsAccounted acc) (msgid msg == msg_id_heartbeat) v (
        if_intro (IsAccounted acc) (msgid msg == command_long)
          (if_intro (IsAccounted acc) (long_command msg == cmd_power_shutdown) kept
            (if_intro (IsAccounted acc) (long_command msg == cmd_power_reboot) kept v))
          v)
    where
      kept : IsAccounted acc (acknowledge msg sock s)
      kept = record { table = v.table; mask = v.mask; each = v.each; few = v.few }

  close-IsAccounted :
      (i : ℕ) (s : Control)
      → get_or s.cmask i false ≡ true
      → IsAccounted acc s
      → IsAccounted acc (record s {
        closed = s.closed ++ (get_or s.clients i 0 ∷ []);
        cmask = set s.cmask i false;
      })
  close-IsAccounted i s h v =
      let freed = connected-set-false s.clients s.cmask i h (v.table ∙ sym v.mask) in
      record {
        table = v.table;
        mask = length-set s.cmask i false ∙ v.mask;
        each = λ fd.
            omega
              (arith, v.each fd, freed.0 fd, count-append fd s.closed (get_or s.clients i 0 ∷ []));
        few = omega (arith, v.few, freed.1);
      }

  module _ (a : Answers) (readset : ℕ → Bool) where
    serve_client-IsAccounted :
        (i : ℕ) (s : Control) → IsAccounted acc s → IsAccounted acc (serve_client a readset i s)
    unfolding serve_client
    serve_client-IsAccounted i s v = elim (Bool-cases (get_or s.cmask i false)) [
      | inl h ↦ rw h (
          if_intro (IsAccounted acc) (readset (get_or s.clients i 0))
            (answered h (a.recvfrom (get_or s.clients i 0))) v)
      | inr h ↦ rw h v
    ]
      where
        answered :
            get_or s.cmask i false ≡ true
            → (o : Option (List ℕ))
            → IsAccounted acc (elim o [
              | none ↦ record s {
                closed = s.closed ++ (get_or s.clients i 0 ∷ []);
                cmask = set s.cmask i false;
              }
              | some msg ↦ parse_msg msg (get_or s.clients i 0) s
            ])
        answered h none = close-IsAccounted i s h v
        answered h (some msg) = parse_msg-IsAccounted msg (get_or s.clients i 0) s v

    serve_clients-IsAccounted :
        (n i : ℕ) (s : Control)
        → IsAccounted acc s
        → IsAccounted acc (serve_clients a n readset i s)
    unfolding serve_clients
    serve_clients-IsAccounted zero i s v = v
    serve_clients-IsAccounted (suc n) i s v =
        serve_clients-IsAccounted n (i + 1) (serve_client a readset i s)
          (serve_client-IsAccounted i s v)

  poll_clients-IsAccounted :
      (a : Answers) (s : Control) → IsAccounted acc s → IsAccounted acc (poll_clients a s)
  unfolding poll_clients
  poll_clients-IsAccounted a s v =
      found (a.select (highest (connected s.clients s.cmask) 0 + 1) (connected s.clients s.cmask))
    where
      found :
          (o : Option (ℕ → Bool))
          → IsAccounted acc (elim o [ none ↦ s | some readset ↦ serve_clients a 32 readset 0 s ])
      found none = v
      found (some readset) = serve_clients-IsAccounted a readset 32 0 s v

-- With fewer than 32 descriptors before, a new one finds a place.
take_client-IsAccounted :
    (acc : List ℕ) (c : ℕ) (s : Control)
    → length acc < 32
    → IsAccounted acc s
    → (s1 : Control) × (take_client (some c) s ≡ some s1) × IsAccounted (acc ++ (c ∷ [])) s1
unfolding take_client
take_client-IsAccounted acc c s h v =
    let (n, free) =
      first_free-some s.clients s.cmask (v.table ∙ sym v.mask) (omega (arith, v.few, v.mask)) in
    let taken = connected-set-true s.clients s.cmask n c free (v.table ∙ sym v.mask) in
    (
      record s { clients = set s.clients n c; cmask = set s.cmask n true },
      ap
          (λ o. elim o [
            | none ↦ none
            | some cn ↦
                some (record s { clients = set s.clients cn c; cmask = set s.cmask cn true })
          ])
          free,
      record {
        table = length-set s.clients n c ∙ v.table;
        mask = length-set s.cmask n true ∙ v.mask;
        each = λ fd. omega (arith, v.each fd, taken.0 fd, count-append fd acc (c ∷ []));
        few = omega (arith, v.few, taken.1, length-append acc (c ∷ []));
      },
    )

taken_lem :
    (acc : List ℕ) (o : Option ℕ) (s : Control)
    → IsAccounted acc s
    → length acc + length (new_descriptors o) ≤ 32
    → (s1 : Control) × (take_client o s ≡ some s1) × IsAccounted (acc ++ new_descriptors o) s1
unfolding take_client
taken_lem acc none s v h = (s, refl, rw append-nil v)
taken_lem acc (some c) s v h = take_client-IsAccounted acc c s (omega arith) v

control_cycle-IsAccounted :
    (acc : List ℕ) (a : Answers) (s : Control)
    → IsAccounted acc s
    → length acc + length (new_descriptors a.accepted) ≤ 32
    → (s1 : Control) × (control_cycle a s ≡ some s1)
      × IsAccounted (acc ++ new_descriptors a.accepted) s1
unfolding control_cycle
control_cycle-IsAccounted acc a s v h =
    let (s1, e, w) = taken_lem acc a.accepted s v h in
    let more : List ℕ = acc ++ new_descriptors a.accepted in
    (
      if any_bit s1.cmask then poll_clients a s1 else s1,
      ap
          (λ o. elim o [
            | none ↦ none
            | some t ↦ some (if any_bit t.cmask then poll_clients a t else t)
          ])
          e,
      if_intro (IsAccounted more) (any_bit s1.cmask) (poll_clients-IsAccounted more a s1 w) w,
    )

-- A run whose descriptors are at most 32 with those before.
control_cycles_from :
    (acc : List ℕ) (as' : List Answers) (s : Control)
    → IsAccounted acc s
    → length acc + length (all_accepted as') ≤ 32
    → (s1 : Control) × (control_cycles as' s ≡ some s1) × IsAccounted (acc ++ all_accepted as') s1
unfolding control_cycles
control_cycles_from acc [] s v h = (s, refl, rw append-nil v)
control_cycles_from acc (a ∷ rest) s v h =
    let new : List ℕ = new_descriptors a.accepted in
    let lengths = length-append new (all_accepted rest) in
    let (s1, e, w) = control_cycle-IsAccounted acc a s v (omega (arith, lengths)) in
    let (s2, e2, w2) =
      control_cycles_from (acc ++ new) rest s1 w (omega (arith, lengths, length-append acc new)) in
    (
      s2,
      ap (λ o. elim o [ none ↦ none | some t ↦ control_cycles rest t ]) e ∙ e2,
      subst (λ l. IsAccounted l s2) (append_assoc acc new (all_accepted rest)) w2,
    )

nobody : (cs : List ℕ) (n : ℕ) → connected cs (replicate n false) ≡ []
unfolding connected
nobody [] n = refl
nobody (c ∷ cs) zero = refl
nobody (c ∷ cs) (suc n) = nobody cs n

-- When at most 32 descriptors are accepted in all, the run of the main loop is defined, and every
-- descriptor is, as often as it was accepted, in the table or closed, whatever the system answers.
pub control_cycles-accounted :
    (answers : List Answers) (clients : List ℕ)
    → length clients ≡ 32
    → length (all_accepted answers) ≤ 32
    → (s : Control) × (control_cycles answers (started clients) ≡ some s)
      × ((fd : ℕ)
          → count fd (all_accepted answers)
            ≡ count fd s.closed + count fd (connected s.clients s.cmask))
control_cycles-accounted answers clients e h =
    let (s, run, v) = control_cycles_from [] answers (started clients) fresh (omega arith) in
    (s, run, v.each)
  where
    fresh : IsAccounted [] (started clients)
    fresh = record {
      table = e;
      mask = refl;
      each = λ fd. omega (arith, ap (count fd) (nobody clients 32));
      few = omega (arith, ap length (nobody clients 32));
    }
