-- ===== src/Service/Outcomes/Allocation.antt =====
-- Which floating IP a project gets.
use casper_cloud.Prelude.{◌&&◌, not, Bool}
use casper_cloud.Data.{Uuid, FloatingIp}
use casper_cloud.Repository.FloatingIps.{is_unallocated}

-- The rows that no project has and no other transaction holds.
abbrev pub is_candidate : (Uuid → Bool) → FloatingIp → Bool
is_candidate locked r = is_unallocated r.status && not (locked r.id)
