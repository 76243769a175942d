-- ===== src/Hub/Leases.antt =====
-- Laws of the service-lease files: what a read sees after a write.
use cyberlegion.Prelude.{String, ◌&&◌, ◌==◌, if◌then◌else◌, ◌≡◌, some, arith, eq_iff, get_or, []}
use cyberlegion.Prelude.Dict
use cyberlegion.Prelude.Dict.{get-put}
use cyberlegion.Hub.Types.{Hub, ServiceLease}
use cyberlegion.Hub.SafeId.{is_safe_id}
use cyberlegion.Hub.{put_service_lease, get_service_lease}

pub get_service_lease-same :
    (g h : Hub) (p n : String)
    → g.leases ≡ h.leases
    → get_service_lease g p n ≡ get_service_lease h p n
unfolding get_service_lease
get_service_lease-same g h p n e = rw e

-- A lease is read back under its own project and service, and only there.
pub get_service_lease-put :
    (l : ServiceLease) (h : Hub) (p n : String)
    → get_service_lease (put_service_lease l h).1 p n ≡ (
        if (is_safe_id l.project && is_safe_id l.service) && (l.project == p && l.service == n)
        then some l
        else get_service_lease h p n)
unfolding get_service_lease put_service_lease
get_service_lease-put l h p n = ground (
  arith,
  get-put h.leases l.project p (Dict.put (get_or (Dict.get h.leases l.project) []) l.service l),
  get-put (get_or (Dict.get h.leases l.project) []) l.service n l,
  eq_iff l.project p,
  eq_iff l.service n,
)
