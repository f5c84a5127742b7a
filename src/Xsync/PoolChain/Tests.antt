-- ===== src/Xsync/PoolChain/Tests.antt =====
-- Runs of xsync/pool_chain.go, and each theorem at one of them.
use srcrd.Prelude.{◌≡◌, List, [], ◌∷◌}
use srcrd.Xsync.PoolQueue.{item}
use srcrd.Xsync.PoolQueue.Session.{Op, to_head, from_head, from_tail}
use srcrd.Xsync.PoolChain.{PoolChain, push_head}
use srcrd.Xsync.PoolChain.Rings.{IsChain, values}
use srcrd.Xsync.PoolChain.Push.{push_head_adds}
use srcrd.Xsync.PoolChain.Session.{takes, spec_takes, takes-spec_takes}

abbrev two : PoolChain
two = push_head (item 4) (push_head (item 3) [])

two-IsChain : IsChain two
two-IsChain = (push_head_adds (item 4) _ (push_head_adds (item 3) [] tt).0).0

abbrev calls : List Op
calls = to_head (item 5) ∷ from_head ∷ from_tail ∷ from_tail ∷ from_tail ∷ []

takes-spec_takes_example : takes calls two ≡ spec_takes calls (values two)
takes-spec_takes_example = takes-spec_takes calls two two-IsChain
