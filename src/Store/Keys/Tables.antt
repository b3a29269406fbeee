-- ===== src/Store/Keys/Tables.antt =====
-- The keys of all tables where one table changes.
use mcp_gatehound.Base.{List, Distinct}
use mcp_gatehound.Store.{IdentityRule, TokenRow, PendingRow, CallRecord, Db}
use mcp_gatehound.Store.Keys.{same_rule, same_token, same_pending, same_call, IsKeyed}

-- One table changes, and its keys are kept.
pub with_identities :
    {db : Db} (rs : List IdentityRule)
    → IsKeyed db
    → Distinct same_rule rs
    → IsKeyed (record db { identities = rs })
with_identities rs v h = record {
  identities = h;
  tokens = v.tokens;
  pending = v.pending;
  sends = v.sends;
  metas = v.metas;
  requests = v.requests;
  counted = v.counted;
}

pub with_tokens :
    {db : Db} (ts : List TokenRow)
    → IsKeyed db
    → Distinct same_token ts
    → IsKeyed (record db { tokens = ts })
with_tokens ts v h = record {
  identities = v.identities;
  tokens = h;
  pending = v.pending;
  sends = v.sends;
  metas = v.metas;
  requests = v.requests;
  counted = v.counted;
}

pub with_pending :
    {db : Db} (ps : List PendingRow)
    → IsKeyed db
    → Distinct same_pending ps
    → IsKeyed (record db { pending = ps })
with_pending ps v h = record {
  identities = v.identities;
  tokens = v.tokens;
  pending = h;
  sends = v.sends;
  metas = v.metas;
  requests = v.requests;
  counted = v.counted;
}

pub with_sends :
    {db : Db} (cs : List CallRecord)
    → IsKeyed db
    → Distinct same_call cs
    → IsKeyed (record db { sends = cs })
with_sends cs v h = record {
  identities = v.identities;
  tokens = v.tokens;
  pending = v.pending;
  sends = h;
  metas = v.metas;
  requests = v.requests;
  counted = v.counted;
}
