-- ===== src/Server/Read/Reordered.antt =====
-- The handlers of reads, `process_get_request`, `process_get_next_request` and
-- `process_get_bulk_request`, on a request whose bindings come in another order.
use mathlib.Core.Logic.{∥∥₁_elim}
use mathlib.Core.List.{Perm, Permᴰ}
use mathlib.Core.List.Perm
use mathlib.Core.Bool.{Bool-set}
use native.Mathlib.Nat.{ℕ_set}
use simple_snmpd.Base.{suc, ◌≡◌, ◌∙◌, ap, refl, Bool, true, false, ◌&&◌, List, length}
use simple_snmpd.Packet.{SnmpPacket, VariableBinding}
use simple_snmpd.Mib.{MibManager}
use simple_snmpd.Server.Read.{
  process_get_request, process_get_next_request, process_get_bulk_request,
}
use simple_snmpd.Server.Read.Answers.{
  value_or_null, exists, all_exist, successor, process_get_request_lem,
  process_get_next_request_lem, process_get_bulk_request-get_next,
}

-- The second packet is the first with its bindings in some other order.
abbrev pub Reorders : SnmpPacket → SnmpPacket → Type 0
Reorders p q =
    Perm p.variable_bindings q.variable_bindings
    × (q ≡ record p { variable_bindings = q.variable_bindings })

and_swap : (a b c : Bool) → (a && (b && c)) ≡ (b && (a && c))
and_swap true true c = refl
and_swap true false c = refl
and_swap false true c = refl
and_swap false false c = refl

length-Permᴰ : {vs ws : List VariableBinding} → Permᴰ vs ws → length vs ≡ length ws
length-Permᴰ Permᴰ.nil = refl
length-Permᴰ (Permᴰ.cons e d) = ap suc (length-Permᴰ d)
length-Permᴰ (Permᴰ.swap e₁ e₂) = refl
length-Permᴰ (Permᴰ.trans d₁ d₂) = length-Permᴰ d₁ ∙ length-Permᴰ d₂

length-Perm : {vs ws : List VariableBinding} → Perm vs ws → length vs ≡ length ws
length-Perm p = ∥∥₁_elim p (ℕ_set _ _) length-Permᴰ

module _ (mib : MibManager) (m : mib.State) where
  all_exist-Permᴰ :
      {vs ws : List VariableBinding} → Permᴰ vs ws → all_exist mib m vs ≡ all_exist mib m ws
  all_exist-Permᴰ Permᴰ.nil = refl
  all_exist-Permᴰ (Permᴰ.cons e d) = rw (e, all_exist-Permᴰ d)
  all_exist-Permᴰ (Permᴰ.swap {a' = a} {b' = b} {l} e₁ e₂) =
      rw (e₁, e₂) (and_swap (exists mib m b.oid) (exists mib m a.oid) (all_exist mib m l))
  all_exist-Permᴰ (Permᴰ.trans d₁ d₂) = all_exist-Permᴰ d₁ ∙ all_exist-Permᴰ d₂

  all_exist-Perm :
      {vs ws : List VariableBinding} → Perm vs ws → all_exist mib m vs ≡ all_exist mib m ws
  all_exist-Perm p = ∥∥₁_elim p (Bool-set _ _) all_exist-Permᴰ

  get-Reorders :
      (request reordered response : SnmpPacket)
      → Reorders request reordered
      → Reorders
          (process_get_request mib m request response)
          (process_get_request mib m reordered response)
  get-Reorders request reordered response (p, e) =
      rw
        (
          process_get_request_lem mib m request response,
          process_get_request_lem mib m reordered response,
        )
        (
          Perm.append_left response.variable_bindings (Perm.map (λ v. value_or_null mib m v.oid) p),
          rw (all_exist-Perm p, length-Perm p),
        )

  get_next-Reorders :
      (request reordered response : SnmpPacket)
      → Reorders request reordered
      → Reorders
          (process_get_next_request mib m request response)
          (process_get_next_request mib m reordered response)
  get_next-Reorders request reordered response (p, e) =
      rw
        (
          process_get_next_request_lem mib m request response,
          process_get_next_request_lem mib m reordered response,
        )
        (
          Perm.append_left response.variable_bindings (Perm.map (λ v. successor mib m v.oid) p),
          refl,
        )

  -- For every state of the objects: if two requests differ in the order of their bindings only, so
  -- do their responses, to a GET, a GET-NEXT or a GET-BULK, from the same packet. The error fields
  -- are the same: no answer to a read depends on where a name stands in the request.
  pub reads-Reorders :
      (request reordered response : SnmpPacket)
      → Reorders request reordered
      → Reorders
          (process_get_request mib m request response)
          (process_get_request mib m reordered response)
        × Reorders
            (process_get_next_request mib m request response)
            (process_get_next_request mib m reordered response)
        × Reorders
            (process_get_bulk_request mib m request response)
            (process_get_bulk_request mib m reordered response)
  reads-Reorders request reordered response r =
      rw
        (
          process_get_bulk_request-get_next mib m request response,
          process_get_bulk_request-get_next mib m reordered response,
        )
        (
          get-Reorders request reordered response r,
          get_next-Reorders request reordered response r,
          get_next-Reorders request reordered response r,
        )
