-- ===== src/Fat/Examples.antt =====
-- Runs over the small volume.
use light_loader.Common.{◌≡◌, refl, arith, [], ◌∷◌}
use light_loader.ByteDisk.InMemory.{memory_disk}
use light_loader.Fat.Results.{Ends}
use light_loader.Fat.{cache_cluster_chain}
use light_loader.Fat.Table.{Keeps}
use light_loader.Fat.Chain.{cache_cluster_chain-Chain}
use light_loader.Fat.Write.{grow_loop}
use light_loader.Fat.Write.Grow.{Grown, grow_loop-Grown}
use light_loader.Fat.SmallVolume.{
  volume, volume-HasTable, disk, table, disk-Holds, disk-Chain, three_used,
}

cache_cluster_chain-Chain_example :
    Ends
      (cache_cluster_chain memory_disk volume 5 2 disk)
      (λ d' r. Keeps memory_disk disk d' × (r ≡ 2 ∷ 3 ∷ []))
cache_cluster_chain-Chain_example =
    cache_cluster_chain-Chain memory_disk volume volume-HasTable table 5 2 2 (3 ∷ []) disk
      disk-Holds disk-Chain (omega arith)

grow_loop-Grown_example :
    Grown memory_disk volume volume-HasTable table 2 2
      (3 ∷ [])
      2
      (grow_loop memory_disk volume 2 3 disk)
grow_loop-Grown_example =
    grow_loop-Grown memory_disk volume volume-HasTable table 2 2 (3 ∷ []) 2 3 disk disk-Holds
      disk-Chain refl (omega arith) three_used (omega arith) (omega arith)
