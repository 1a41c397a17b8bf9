-- ===== src/Air/Gps/Lines.antt =====
-- However the bytes are cut into reads, the lines are parsed one by one.
use rhex_service.Base.{
  ℕ, zero, suc, ◌+◌, ◌<◌, ◌≡◌, ◌≢◌, refl, sym, ap, ap₂, ◌∙◌, subst, arith, List, [], ◌∷◌, ◌++◌,
  true, false, ◌||◌, Option, none, some, append-nil, append_assoc, map,
}
use rhex_service.Base.{
  if_intro, if_true, ltb, lt→ltb, ◌==◌, ==_iff, length, take, set, All, length-set, length-append,
  Bool-cases, inl, inr,
}
use rhex_service.Air.Gps.{
  Minmea, Report, Gps, Input, c_string, parse_line, end_line, take_byte, take_bytes, gps_loop,
}

-- A byte of a line's text: no end of a line, and not 0.
abbrev pub IsText : ℕ → Type 0
IsText b = (b ≢ 0) × (b ≢ 10) × (b ≢ 13)

-- A line that fits the array: not empty, and at most 255 bytes.
abbrev pub IsLine : List ℕ → Type 0
IsLine line = All IsText line × (0 < length line) × (length line < 256)

-- The lines as they are sent, each with "\r\n" behind it.
abbrev pub sent_lines : List (List ℕ) → List ℕ
sent_lines [] = []
sent_lines (line ∷ rest) = line ++ (13 ∷ 10 ∷ sent_lines rest)

abbrev pub all_bytes : List (List ℕ) → List ℕ
all_bytes [] = []
all_bytes (bytes ∷ rest) = bytes ++ all_bytes rest

pub differs : (a b : ℕ) → a ≢ b → (a == b) ≡ false
differs a b h = elim (Bool-cases (a == b)) [ inl e ↦ absurd (h ((==_iff a b).0 e)) | inr e ↦ e ]

c_string-set :
    (xs : List ℕ) (n : ℕ)
    → n < length xs
    → All IsText (take n xs)
    → c_string (set xs n 0) ≡ take n xs
c_string-set [] n h t = absurd (omega arith)
c_string-set (x ∷ xs) zero h t = refl
c_string-set (x ∷ xs) (suc n) h t =
    rw (differs x 0 t.0.0) (ap (λ r. x ∷ r) (c_string-set xs n (omega arith) t.1))

take-set_end :
    (xs : List ℕ) (n b : ℕ) → n < length xs → take (n + 1) (set xs n b) ≡ take n xs ++ (b ∷ [])
take-set_end [] n b h = absurd (omega arith)
take-set_end (x ∷ xs) zero b h = ap (λ k. take k (b ∷ xs)) {x = 0 + 1} {y = 1} (omega arith)
take-set_end (x ∷ xs) (suc n) b h =
    ap (λ k. take k (x ∷ set xs n b)) {x = suc n + 1} {y = suc (n + 1)} (omega arith)
    ∙ ap (λ r. x ∷ r) (take-set_end xs n b (omega arith))

module _ {N F : Type 0} (m : Minmea N F) where
  abbrev pub parse_lines : List (List ℕ) → Report F → Report F
  parse_lines [] r = r
  parse_lines (line ∷ rest) r = parse_lines rest (parse_line m line r)

  -- The bytes `ys`, unless the run has gone wrong.
  abbrev pub then_bytes : List ℕ → Option (Gps F) → Option (Gps F)
  then_bytes ys none = none
  then_bytes ys (some g) = take_bytes m ys g

  take_bytes-append :
      (xs ys : List ℕ) (g : Gps F) → take_bytes m (xs ++ ys) g ≡ then_bytes ys (take_bytes m xs g)
  unfolding take_bytes
  take_bytes-append [] ys g = refl
  take_bytes-append (x ∷ xs) ys g = behind (take_byte m x g) (take_bytes-append xs ys)
    where
      behind :
          (o : Option (Gps F))
          → ((g1 : Gps F) → take_bytes m (xs ++ ys) g1 ≡ then_bytes ys (take_bytes m xs g1))
          → then_bytes (xs ++ ys) o ≡ then_bytes ys (then_bytes xs o)
      behind none ih = refl
      behind (some g1) ih = ih g1

  -- A text byte goes to the end of the line.
  pub take_byte_text :
      (b : ℕ) (g : Gps F)
      → IsText b
      → g.line_len < 256
      → take_byte m b g
        ≡ some (record g { line = set g.line g.line_len b; line_len = g.line_len + 1 })
  unfolding take_byte
  take_byte_text b g t h = rw (differs b 13 t.2, differs b 10 t.1, lt→ltb g.line_len 256 h) refl

  -- The line so far, `pre`, with a text behind it.
  text_run :
      (txt pre : List ℕ) (g : Gps F)
      → g.line_len ≡ length pre
      → take g.line_len g.line ≡ pre
      → length g.line ≡ 256
      → All IsText txt
      → length pre + length txt < 256
      → (g1 : Gps F) × (take_bytes m txt g ≡ some g1)
        × (g1.line_len ≡ length pre + length txt)
        × (take g1.line_len g1.line ≡ pre ++ txt)
        × (length g1.line ≡ 256)
        × (g1.report ≡ g.report)
        × (g1.armed ≡ g.armed)
  unfolding take_bytes
  text_run [] pre g el et e256 ht hl =
      (g, refl, omega (arith, el), et ∙ sym (append-nil pre), e256, refl, refl)
  text_run (b ∷ txt) pre g el et e256 ht hl =
      let g1 : Gps F = record g { line = set g.line g.line_len b; line_len = g.line_len + 1 } in
      let (g2, run, l2, t2, e2, r2, a2) =
        text_run txt (pre ++ (b ∷ [])) g1 (omega (arith, el, length-append pre (b ∷ [])))
          (take-set_end g.line g.line_len b (omega (arith, el, e256)) ∙ ap (λ p. p ++ (b ∷ [])) et)
          (length-set g.line g.line_len b ∙ e256) ht.1
          (omega (arith, hl, length-append pre (b ∷ []))) in
      (
        g2,
        ap (then_bytes txt) (take_byte_text b g ht.0 (omega (arith, el))) ∙ run,
        omega (arith, l2, length-append pre (b ∷ [])),
        t2 ∙ append_assoc pre (b ∷ []) txt,
        e2,
        r2,
        a2,
      )

  -- Between two lines, while data are seen.
  pub record IsReady (g : Gps F) : Type 0 where
    pub at_start : g.line_len ≡ 0
    pub room : length g.line ≡ 256
    pub hears : g.armed ≡ true

  -- The line that ends.
  abbrev ended : Gps F → Gps F
  ended g = record g {
    line = set g.line g.line_len 0;
    report = parse_line m (c_string (set g.line g.line_len 0)) g.report;
    line_len = 0;
  }

  return_seen : (g : Gps F) → 0 < g.line_len → g.line_len < 256 → take_byte m 13 g ≡ some (ended g)
  unfolding take_byte end_line
  return_seen g h k = rw (lt→ltb 0 g.line_len h, lt→ltb g.line_len 256 k) refl

  end_seen :
      (g : Gps F)
      → 0 < g.line_len
      → g.line_len < 256
      → take_bytes m (13 ∷ 10 ∷ []) g ≡ some (ended g)
  unfolding take_bytes take_byte end_line
  end_seen g h k = ap (then_bytes (10 ∷ [])) (return_seen g h k)

  line_parsed :
      (line : List ℕ) (g : Gps F)
      → IsLine line
      → IsReady g
      → (g1 : Gps F) × (take_bytes m (line ++ (13 ∷ 10 ∷ [])) g ≡ some g1)
        × IsReady g1
        × (g1.report ≡ parse_line m line g.report)
  line_parsed line g h r =
      let (g1, run, l1, t1, e1, r1, a1) =
        text_run line [] g r.at_start (ap (λ n. take n g.line) r.at_start) r.room h.0
          (omega (arith, h.2)) in
      (
        ended g1,
        take_bytes-append line (13 ∷ 10 ∷ []) g
            ∙ ap (then_bytes (13 ∷ 10 ∷ [])) run
            ∙ end_seen g1 (omega (arith, l1, h.1)) (omega (arith, l1, h.2)),
        record {
          at_start = refl;
          room = length-set g1.line g1.line_len 0 ∙ e1;
          hears = a1 ∙ r.hears;
        },
        ap₂ (parse_line m)
            (c_string-set g1.line g1.line_len (omega (arith, l1, e1, h.2))
                (subst (All IsText) (sym t1) h.0)
              ∙ t1)
            r1,
      )

  lines_parsed :
      (lines : List (List ℕ)) (g : Gps F)
      → All IsLine lines
      → IsReady g
      → (g1 : Gps F) × (take_bytes m (sent_lines lines) g ≡ some g1)
        × IsReady g1
        × (g1.report ≡ parse_lines lines g.report)
  unfolding take_bytes
  lines_parsed [] g h r = (g, refl, r, refl)
  lines_parsed (line ∷ rest) g h r =
      let (g1, run, r1, e1) = line_parsed line g h.0 r in
      let (g2, run2, r2, e2) = lines_parsed rest g1 h.1 r1 in
      (
        g2,
        ap (λ bytes. take_bytes m bytes g)
              (sym (append_assoc line (13 ∷ 10 ∷ []) (sent_lines rest)))
            ∙ take_bytes-append (line ++ (13 ∷ 10 ∷ [])) (sent_lines rest) g
            ∙ ap (then_bytes (sent_lines rest)) run
            ∙ run2,
        r2,
        e2 ∙ ap (parse_lines rest) e1,
      )

  -- Data are seen afterwards, if the run has not gone wrong.
  abbrev Hears : Option (Gps F) → Type 0
  Hears none = Unit {0}
  Hears (some g) = g.armed ≡ true

  take_byte-Hears : (b : ℕ) (g : Gps F) → g.armed ≡ true → Hears (take_byte m b g)
  unfolding take_byte end_line
  take_byte-Hears b g h =
      if_intro Hears ((b == 13) || (b == 10))
        (if_intro Hears (ltb 0 g.line_len) (if_intro Hears (ltb g.line_len 256) h tt) h)
        (if_intro Hears (ltb g.line_len 256) h tt)

  take_bytes-Hears : (bytes : List ℕ) (g : Gps F) → g.armed ≡ true → Hears (take_bytes m bytes g)
  unfolding take_bytes
  take_bytes-Hears [] g h = h
  take_bytes-Hears (b ∷ bytes) g h =
      run (take_byte m b g) (take_byte-Hears b g h) (take_bytes-Hears bytes)
    where
      run :
          (o : Option (Gps F))
          → Hears o
          → ((g1 : Gps F) → g1.armed ≡ true → Hears (take_bytes m bytes g1))
          → Hears (then_bytes bytes o)
      run none k ih = tt
      run (some g1) k ih = ih g1 k

  reads_joined :
      (reads : List (List ℕ)) (g g1 : Gps F)
      → g.armed ≡ true
      → take_bytes m (all_bytes reads) g ≡ some g1
      → gps_loop m (map Input.received reads) g ≡ some g1
  unfolding take_bytes gps_loop
  reads_joined [] g g1 h e = e
  reads_joined (bytes ∷ rest) g g1 h e =
      if_true _ _ h
      ∙ run (take_bytes m bytes g) (take_bytes-Hears bytes g h)
          (sym (take_bytes-append bytes (all_bytes rest) g) ∙ e) (λ g2. reads_joined rest g2 g1)
    where
      run :
          (o : Option (Gps F))
          → Hears o
          → then_bytes (all_bytes rest) o ≡ some g1
          → ((g2 : Gps F)
              → g2.armed ≡ true
              → take_bytes m (all_bytes rest) g2 ≡ some g1
              → gps_loop m (map Input.received rest) g2 ≡ some g1)
          → (elim o [ none ↦ none | some g2 ↦ gps_loop m (map Input.received rest) g2 ]) ≡ some g1
      run none k e2 ih = e2
      run (some g2) k e2 ih = ih g2 k e2

  -- Lines of 1 to 255 bytes without 0, "\r" or "\n", sent with "\r\n" behind each, are parsed one
  -- by one and in order, however reads cut the bytes, while the process is between two lines at the
  -- start and no wait for data runs out; it is between two lines afterwards.
  pub gps_loop-parse_lines :
      (lines reads : List (List ℕ)) (g : Gps F)
      → All IsLine lines
      → all_bytes reads ≡ sent_lines lines
      → IsReady g
      → (g1 : Gps F) × (gps_loop m (map Input.received reads) g ≡ some g1)
        × IsReady g1
        × (g1.report ≡ parse_lines lines g.report)
  gps_loop-parse_lines lines reads g h e r =
      let (g1, run, r1, e1) = lines_parsed lines g h r in
      (g1, reads_joined reads g g1 r.hears (ap (λ bytes. take_bytes m bytes g) e ∙ run), r1, e1)
