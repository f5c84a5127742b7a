-- ===== src/Netpoll/Cache/Tests.antt =====
-- Witnesses for the descriptors of netpoll/netpoll0.go.
use srcrd.Prelude.{ℕ, ◌%◌, false, []}
use srcrd.Netpoll.Cache.{PollDesc, PollCache}

abbrev zero_desc : PollDesc
zero_desc = record {
  fd = 0;
  closing = false;
  everr = false;
  rseq = 0;
  rg = 0;
  rd = 0;
  wseq = 0;
  wg = 0;
  wd = 0;
}

-- `pollcache` at the start.
abbrev start : PollCache
start = record { first = []; next = 0; desc = λ _. zero_desc }

-- A kernel that takes even descriptors.
abbrev even_only : ℕ → ℕ → ℕ
even_only fd pd = fd % 2
