-- ===== src/Xlog/Tests.antt =====
-- Runs of xlog/log.go, and each theorem at one of them.
use srcrd.Prelude.{ℕ, ◌≡◌, refl, arith, none, some, List, [], ◌++◌, length}
use srcrd.Xstrconv.Itoa.{codes}
use srcrd.Xbufio.Writer.{IoWrite}
use srcrd.Xlog.{Time, new, itoa_loop, itoa, field, format_date, format_time, format_header, output}
use srcrd.Xlog.Line.{InRange, Logged, output-Logged}

-- A writer that takes all.
abbrev collects : IoWrite (List ℕ)
collects out p = ((length p, none), out ++ p)

abbrev release : Time
release = record { year = 2021; month = 3; day = 9; hour = 7; min = 0; sec = 45 }

release-InRange : InRange release
release-InRange = ground arith

abbrev line : List ℕ
line = codes "2021/03/09 07:00:45 up\n"

writes_line :
    output collects release (codes "up") (new [] 3)
    ≡ some (none, record { flag = 3; out = line; buf = line })
unfolding output format_header format_date format_time field itoa itoa_loop
writes_line = refl

long_number : itoa [] 1234567 4 ≡ some (codes "1234567")
unfolding itoa itoa_loop
long_number = refl

output-Logged_example :
    Logged collects release (codes "up") (record { flag = 3; out = []; buf = line })
output-Logged_example = output-Logged collects release (codes "up") [] line release-InRange
