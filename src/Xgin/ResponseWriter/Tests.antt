-- ===== src/Xgin/ResponseWriter/Tests.antt =====
-- A handler that sets two statuses, sends, and sets another.
use srcrd.Prelude.{ℕ, List, [], ◌∷◌, Option, none, ◌≡◌, refl, length}
use srcrd.Xgin.ResponseWriter.{Sent, header, body, flushed, ResponseWriter, default_status, reset}
use srcrd.Xgin.ResponseWriter.Header.{
  Op, set_status, send, send_header, flush_all, perform_all, spec_sent, tail_of, reset_sent,
}

-- A writer that takes all.
abbrev takes_all : List Sent → List ℕ → ℕ × Option ℕ
takes_all sent p = (length p, none)

abbrev calls : List Op
calls =
    set_status 404
    ∷ set_status 0
    ∷ send (104 ∷ 105 ∷ [])
    ∷ set_status 500
    ∷ send_header
    ∷ flush_all
    ∷ []

abbrev stale : ResponseWriter
stale = record { size = none; status = 302; sent = flushed ∷ [] }

calls_sent : spec_sent default_status calls ≡ header 404 ∷ body (104 ∷ 105 ∷ []) ∷ flushed ∷ []
unfolding spec_sent tail_of
calls_sent = refl

reset_sent_example :
    (perform_all takes_all calls (reset [] stale)).sent ≡ spec_sent default_status calls
reset_sent_example = reset_sent takes_all stale calls
