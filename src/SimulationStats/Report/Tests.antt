-- ===== src/SimulationStats/Report/Tests.antt =====
-- The statistics of a run in which nothing happened, as JSON.
use concurrent_request_orche.Base.{◌≤◌, ◌≡◌, some, arith}
use concurrent_request_orche.Text.{codes}
use concurrent_request_orche.SimulationStats.{no_statistics}
use concurrent_request_orche.SimulationStats.Report.{Buffer, Format, write_statistics_to_buffer}
use concurrent_request_orche.SimulationStats.Report.Blank.{no_statistics-IsReportable}
use concurrent_request_orche.SimulationStats.Report.Fits.{
  IsWhole, IsShort, write_statistics-IsWhole,
}

abbrev plain : Format
plain = record { general3 = λ a. codes "1.5"; root3 = λ a. codes "0" }

plain-IsShort : IsShort plain
plain-IsShort = record { general = λ a. omega arith; root = λ a. omega arith }

write_statistics-IsWhole_example :
    (b : Buffer) × (write_statistics_to_buffer plain no_statistics 4_096 ≡ some b)
    × IsWhole 4_095 b
    × (1 ≤ b.offset)
write_statistics-IsWhole_example =
    write_statistics-IsWhole plain plain-IsShort no_statistics no_statistics-IsReportable
