-- ===== src/Chain/Colours.antt =====
-- SnapshotBlueFlags and NewlyBlue of dag.cc.
pub mod Changes
use ghostdagsim.Common.{ℕ, Bool, not, ◌&&◌, List, [], ◌∷◌, if◌then◌else◌, map}
use ghostdagsim.Chain.State.{Blockchain, block_at}
use ghostdagsim.Chain.Sort.{sort}

unfoldable pub snapshot_blue_flags : Blockchain → List Bool
snapshot_blue_flags c = map (λ id. (block_at c id).is_blue) c.id_of

-- The loop over the indices, along the flags: beyond their end a block was not blue.
pub newly_from : Blockchain → List Bool → List ℕ → List ℕ
newly_from c before [] = []
newly_from c [] (id ∷ ids) =
    let rest = newly_from c [] ids in if (block_at c id).is_blue then id ∷ rest else rest
newly_from c (prev ∷ before) (id ∷ ids) =
    let rest = newly_from c before ids in
    if not prev && (block_at c id).is_blue then id ∷ rest else rest

unfoldable pub newly_blue : Blockchain → List Bool → List ℕ
unfolding newly_from
newly_blue c before = sort (newly_from c before c.id_of)
