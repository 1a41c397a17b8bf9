-- ===== src/Air/Gps.antt =====
-- rhex_air/sensors/gps.c: the lines that the receiver of satellite positions sends, and what the
-- process publishes of them. The parser of a line, rhex_air/sensors/minmea.c, is a parameter.
pub mod Lines
pub mod Faults
use rhex_service.Base.{
  ℕ, zero, suc, ◌+◌, ◌-◌, ◌%◌, ◌^◌, List, [], ◌∷◌, ◌++◌, Bool, true, false, ◌&&◌, ◌||◌, Option,
  none, some,
}
use rhex_service.Base.{if◌then◌else◌, ltb, ◌==◌, set}
use rhex_service.Base.Int.{ℤ, pos, negsuc, ltb_ℤ}

-- enum minmea_sentence_id
pub data SentenceId : Type 0 where
  invalid : SentenceId
  unknown : SentenceId
  rmc : SentenceId
  gga : SentenceId
  gsa : SentenceId
  gll : SentenceId
  gst : SentenceId
  gsv : SentenceId
  vtg : SentenceId
  zda : SentenceId

-- The fields that are read. `N` is struct minmea_float.
pub record Gga (N : Type 0) : Type 0 where
  pub latitude : N
  pub longitude : N
  pub altitude : N
  pub hdop : N
  pub fix_quality : ℤ
  pub satellites_tracked : ℤ

pub record Gsv : Type 0 where
  pub total_sats : ℤ

pub record Rmc (N : Type 0) : Type 0 where
  pub latitude : N
  pub longitude : N
  pub speed : N
  pub course : N

-- minmea.c; `F` is a float.
pub record Minmea (N : Type 0) (F : Type 0) : Type 0 where
  pub sentence_id : List ℕ → SentenceId
  pub parse_gga : List ℕ → Option (Gga N)
  pub parse_gsv : List ℕ → Option Gsv
  pub parse_rmc : List ℕ → Option (Rmc N)
  pub tocoord : N → F
  pub tofloat : N → F

-- gps_status_t
pub record GpsStatus (F : Type 0) : Type 0 where
  pub latitude : F
  pub longitude : F
  pub speed : F
  pub course : F
  pub altitude : F
  pub hdop : F
  pub sats_use : ℕ
  pub sats_view : ℕ
  pub has_fix : Bool

-- `tmp_gps_status`, and what was put into the segment "shm_gps", in order.
pub record Report (F : Type 0) : Type 0 where
  pub status : GpsStatus F
  pub published : List (GpsStatus F)

-- The variables of gps_main; `armed`: the descriptor is in the set that select() is given.
pub record Gps (F : Type 0) : Type 0 where
  pub report : Report F
  pub line : List ℕ
  pub line_len : ℕ
  pub armed : Bool

-- A cycle: the time runs out, or read() gives these bytes, or it fails.
pub data Input : Type 0 where
  timeout : Input
  received : List ℕ → Input
  failed : Input

-- `(uint8_t)` of an int.
abbrev pub to_uint8 : ℤ → ℕ
to_uint8 (pos n) = n % 256
to_uint8 (negsuc n) = 255 - n % 256

-- The text in an array of characters: what stands before the first 0.
abbrev pub c_string : List ℕ → List ℕ
c_string [] = []
c_string (c ∷ cs) = if c == 0 then [] else c ∷ c_string cs

module _ {N F : Type 0} (m : Minmea N F) where
  unfoldable pub take_gga : Option (Gga N) → Report F → Report F
  take_gga none r = r
  take_gga (some frame) r =
      if ltb_ℤ (pos 0) frame.fix_quality
      then record r {
        status = record r.status {
          has_fix = true;
          latitude = m.tocoord frame.latitude;
          longitude = m.tocoord frame.longitude;
          altitude = m.tofloat frame.altitude;
          hdop = m.tofloat frame.hdop;
          sats_use = to_uint8 frame.satellites_tracked;
        };
      }
      else record r { status = record r.status { has_fix = false } }

  unfoldable pub take_gsv : Option Gsv → Report F → Report F
  take_gsv none r = r
  take_gsv (some frame) r = record r {
    status = record r.status { sats_view = to_uint8 frame.total_sats };
  }

  unfoldable pub take_rmc : Option (Rmc N) → Report F → Report F
  take_rmc none r = r
  take_rmc (some frame) r =
      let status : GpsStatus F = record r.status {
        latitude = m.tocoord frame.latitude;
        longitude = m.tocoord frame.longitude;
        speed = m.tofloat frame.speed;
        course = m.tofloat frame.course;
      } in
      record { status = status; published = r.published ++ (status ∷ []) }

  unfoldable pub take_sentence : SentenceId → List ℕ → Report F → Report F
  take_sentence SentenceId.gga line r = take_gga (m.parse_gga line) r
  take_sentence SentenceId.gsv line r = take_gsv (m.parse_gsv line) r
  take_sentence SentenceId.rmc line r = take_rmc (m.parse_rmc line) r
  take_sentence SentenceId.invalid line r = r
  take_sentence SentenceId.unknown line r = r
  take_sentence SentenceId.gsa line r = r
  take_sentence SentenceId.gll line r = r
  take_sentence SentenceId.gst line r = r
  take_sentence SentenceId.vtg line r = r
  take_sentence SentenceId.zda line r = r

  unfoldable pub parse_line : List ℕ → Report F → Report F
  parse_line line r = take_sentence (m.sentence_id line) line r

  -- The end of a line. `line` has 256 bytes; a write behind them is not defined: `none`.
  unfoldable pub end_line : Gps F → Option (Gps F)
  end_line g =
      if ltb 0 g.line_len
      then if ltb g.line_len 256
        then some (record g {
          line = set g.line g.line_len 0;
          report = parse_line (c_string (set g.line g.line_len 0)) g.report;
          line_len = 0;
        })
        else none
      else some (record g { line_len = 0 })

  unfoldable pub take_byte : ℕ → Gps F → Option (Gps F)
  take_byte b g =
      if (b == 13) || (b == 10)
      then end_line g
      else if ltb g.line_len 256
      then some (record g { line = set g.line g.line_len b; line_len = g.line_len + 1 })
      else none

  -- The loop on the bytes that are left of a read.
  unfoldable pub take_bytes : List ℕ → Gps F → Option (Gps F)
  take_bytes [] g = some g
  take_bytes (b ∷ bs) g = elim (take_byte b g) [ none ↦ none | some g1 ↦ take_bytes bs g1 ]

  -- The loop of gps_main on the answers of the system. select() takes the descriptor out of the set
  -- when the time runs out, and it is not put back; without it, no data are seen. A read that fails
  -- ends the loop.
  unfoldable pub gps_loop : List Input → Gps F → Option (Gps F)
  gps_loop [] g = some g
  gps_loop (Input.timeout ∷ rest) g = gps_loop rest (record g { armed = false })
  gps_loop (Input.failed ∷ rest) g = let next = gps_loop rest g in if g.armed then some g else next
  gps_loop (Input.received bytes ∷ rest) g =
      let next = gps_loop rest g in
      if g.armed
      then elim (take_bytes bytes g) [ none ↦ none | some g1 ↦ gps_loop rest g1 ]
      else next
