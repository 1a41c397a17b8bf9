-- ===== src/Tests/Gps.antt =====
-- Two lines of positions in three reads.
use rhex_service.Base.{ℕ, ◌≡◌, refl, List, [], ◌∷◌, arith, true, false, none, some, replicate, map}
use rhex_service.Base.{if◌then◌else◌, ◌==◌, get_or}
use rhex_service.Base.Int.{pos}
use rhex_service.Air.Gps.{
  Minmea, Gps, Input, GpsStatus, SentenceId, gps_loop, parse_line, take_sentence, take_rmc,
  take_gga,
}
use rhex_service.Air.Gps.Lines.{gps_loop-parse_lines, IsReady, parse_lines}
use rhex_service.Air.Gps.Faults.{gps_loop_after_timeout}

-- A parser that takes the second byte for a position, and tells the kind by the first.
abbrev toy : Minmea ℕ ℕ
toy = record {
  sentence_id = λ line. if get_or line 0 0 == 82 then SentenceId.rmc else SentenceId.gga;
  parse_gga = λ line. some (record {
    latitude = get_or line 1 0;
    longitude = 0;
    altitude = 9;
    hdop = 1;
    fix_quality = pos 1;
    satellites_tracked = pos 7;
  });
  parse_gsv = λ line. none;
  parse_rmc =
      λ line. some (record { latitude = get_or line 1 0; longitude = 2; speed = 3; course = 4 });
  tocoord = λ n. n;
  tofloat = λ n. n;
}

abbrev nowhere : GpsStatus ℕ
nowhere = record {
  latitude = 0;
  longitude = 0;
  speed = 0;
  course = 0;
  altitude = 0;
  hdop = 0;
  sats_use = 0;
  sats_view = 0;
  has_fix = false;
}

abbrev idle : Gps ℕ
idle = record {
  report = record { status = nowhere; published = [] };
  line = replicate 256 0;
  line_len = 0;
  armed = true;
}

abbrev two_lines : List (List ℕ)
two_lines = (71 ∷ 50 ∷ []) ∷ (82 ∷ 60 ∷ []) ∷ []

abbrev three_reads : List (List ℕ)
three_reads = (71 ∷ []) ∷ (50 ∷ 13 ∷ []) ∷ (10 ∷ 82 ∷ 60 ∷ 13 ∷ 10 ∷ []) ∷ []

gps_loop-parse_lines_example :
    (g1 : Gps ℕ) × (gps_loop toy (map Input.received three_reads) idle ≡ some g1)
    × IsReady toy g1
    × (g1.report ≡ parse_lines toy two_lines idle.report)
gps_loop-parse_lines_example =
    gps_loop-parse_lines toy two_lines three_reads idle (omega arith) refl
      (record { at_start = refl; room = refl; hears = refl })

-- What the two lines make of the report.
two_lines_parsed : (parse_lines toy two_lines idle.report).status ≡ record nowhere {
  latitude = 60;
  longitude = 2;
  speed = 3;
  course = 4;
  altitude = 9;
  hdop = 1;
  sats_use = 7;
  has_fix = true;
}
unfolding parse_line take_sentence take_rmc take_gga
two_lines_parsed = refl

gps_loop_after_timeout_example :
    (g1 : Gps ℕ) × (gps_loop toy (Input.timeout ∷ map Input.received three_reads) idle ≡ some g1)
    × (g1.report ≡ idle.report)
gps_loop_after_timeout_example = gps_loop_after_timeout toy (map Input.received three_reads) idle
