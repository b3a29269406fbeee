-- ===== src/Protocol/Stamped.antt =====
-- What `finish` and `cacheable` change of a result.
use mcp_gatehound.Base.{String, Option, some, ◌==◌, ◌≡◌, refl, if◌then◌else◌}
use mcp_gatehound.Json.{
  Value, Fields, obj, str, num, unsigned, get, get_field, insert_field, get_field-insert_field,
}
use mcp_gatehound.Protocol.{
  modern, legacy, finish, cacheable, meta_stamped, server_info, list_ttl_ms,
}

-- What a client reads under a name in the stamped result.
abbrev pub stamp_at : String → String → Fields → String → Option Value
stamp_at name version fs k =
    if "_meta" == k
    then some (meta_stamped (server_info name version) (get_field "_meta" fs))
    else if "resultType" == k
    then some (str "complete")
    else if "cacheScope" == k
    then some (str "private")
    else if "ttlMs" == k
    then some (num (unsigned list_ttl_ms))
    else get_field k fs

-- The result of a list under a modern revision reads as complete, private, fresh for a minute and with
-- the server's name in _meta beside what was there; every other member is as it was. Under an older
-- revision the whole result is as it was.
pub finish-cacheable :
    (v name version k : String) (fs : Fields)
    → (get k (finish (modern v) name version (cacheable (modern v) (obj fs)))
        ≡ stamp_at name version fs k)
      × (finish legacy name version (cacheable legacy (obj fs)) ≡ obj fs)
unfolding finish cacheable get
finish-cacheable v name version k fs =
    let fresh = insert_field "ttlMs" (num (unsigned list_ttl_ms)) fs in
    let hidden = insert_field "cacheScope" (str "private") fresh in
    let complete = insert_field "resultType" (str "complete") hidden in
    let read = get_field-insert_field in
    (
      rw
          (
            read "_meta" k (meta_stamped (server_info name version) (get_field "_meta" complete))
                complete,
            read "resultType" k (str "complete") hidden,
            read "resultType" "_meta" (str "complete") hidden,
            read "cacheScope" k (str "private") fresh,
            read "cacheScope" "_meta" (str "private") fresh,
            read "ttlMs" k (num (unsigned list_ttl_ms)) fs,
            read "ttlMs" "_meta" (num (unsigned list_ttl_ms)) fs,
          )
          refl,
      refl,
    )
