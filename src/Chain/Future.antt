-- ===== src/Chain/Future.antt =====
-- GetFuture of dag.cc: a search from the children of a block, in breadth first order.
pub mod Descendants
use ghostdagsim.Common.{
  ℕ, zero, suc, Bool, List, [], ◌∷◌, ◌++◌, Option, none, some, length, foldl, contains,
  if◌then◌else◌,
}
use ghostdagsim.Common.Sets.{insert, insert_all}
use ghostdagsim.Chain.State.{Blockchain, children_of}

-- One child of the block at the front of the queue.
unfoldable pub visit : List ℕ × List ℕ → ℕ → List ℕ × List ℕ
visit (future, q) ch = if contains ch future then (future, q) else (insert ch future, q ++ ch ∷ [])

-- The loop; `none`: the rounds ran out.
pub future_loop : Blockchain → ℕ → List ℕ → List ℕ → Option (List ℕ)
unfolding visit
future_loop c rounds future [] = some future
future_loop c zero future (cur ∷ q) = none
future_loop c (suc rounds) future (cur ∷ q) =
    let (future', q') : List ℕ × List ℕ = foldl visit (future, q) (children_of c cur) in
    future_loop c rounds future' q'

-- One round for each block.
unfoldable pub get_future : Blockchain → ℕ → Option (List ℕ)
unfolding future_loop
get_future c id =
    future_loop c (length c.blocks) (insert_all [] (children_of c id)) (children_of c id)
