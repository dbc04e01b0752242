-- ===== src/Server/Write/Permits.antt =====
-- What a SET may change, and what it answers where it may not.
use simple_snmpd.Base.{
  ℕ, ◌<◌, ◌≡◌, ◌⊎◌, refl, subst, ◌∙◌, Bool, true, false, some, Option-cases, Bool-cases, inl, inr,
  List, [], ◌∷◌, ◌++◌, map, map-append, sym, ap, Bytes, append-nil, append_assoc, arith,
}
use simple_snmpd.Packet.{SnmpPacket, VariableBinding, add_variable_binding}
use simple_snmpd.Packet.Error
use simple_snmpd.Mib.{MibManager, MibValue}
use simple_snmpd.Security.{SecurityManager}
use simple_snmpd.Server.{null_binding, set_error}
use simple_snmpd.Server.Write.{write_one, set_one, set_loop, process_set_request}

module _ (mib : MibManager) (security : SecurityManager) where
  abbrev pub written : VariableBinding → MibValue
  written v = record { type = v.value_type; octets = v.value }

  -- `P` survives each write that the access rules allow, to an object that exists and is no scalar.
  pub record Survives (s : security.State) (community : Bytes) (P : mib.State → Type 0)
      : Type 0 where
    pub write :
        (m : mib.State) (v : VariableBinding) (old : MibValue)
        → security.is_oid_allowed s community (mib.oid_to_string v.oid) ≡ true
        → mib.get_value m v.oid ≡ some old
        → mib.is_scalar m v.oid ≡ false
        → P m
        → P (mib.set_value m v.oid (written v)).1

  pub write_one-state :
      (request : SnmpPacket) (v : VariableBinding) (response : SnmpPacket) (r : Bool × mib.State)
      → (write_one mib security request v response r).1 ≡ r.1
  unfolding write_one
  write_one-state request v response (true, m) = refl
  write_one-state request v response (false, m) = refl

  set_one-Survives :
      (s : security.State) (request : SnmpPacket) (P : mib.State → Type 0)
      → Survives s request.community P
      → (v : VariableBinding) (response : SnmpPacket) (m : mib.State) → P m
      → P (set_one mib security s request v (response, m)).1
  unfolding set_one
  set_one-Survives s request P keeps v response m h =
      elim (Bool-cases (security.is_oid_allowed s request.community (mib.oid_to_string v.oid))) [
        | inr e ↦ rw e h
        | inl e ↦ elim (Option-cases (mib.get_value m v.oid)) [
          | inl g ↦ rw (e, g, set_one) h
          | inr (old, g) ↦ elim (Bool-cases (mib.is_scalar m v.oid)) [
            | inl k ↦ rw (e, g, k, set_one) h
            | inr k ↦
                rw (e, g, k, set_one)
                  (rw (write_one-state request v response (mib.set_value m v.oid (written v)))
                    (keeps.write m v old e g k h))
          ]
        ]
      ]

  set_loop-Survives :
      (s : security.State) (request : SnmpPacket) (P : mib.State → Type 0)
      → Survives s request.community P
      → (vs : List VariableBinding) (response : SnmpPacket) (m : mib.State) → P m
      → P (set_loop mib security s request vs (response, m)).1
  unfolding set_loop
  set_loop-Survives s request P keeps [] response m h = h
  set_loop-Survives s request P keeps (v ∷ vs) response m h =
      let r = set_one mib security s request v (response, m) in
      set_loop-Survives s request P keeps vs r.0 r.1
        (set_one-Survives s request P keeps v response m h)

  -- A SET changes the objects only by writes that the access rules allow, to objects that exist and
  -- are no scalars: what survives each such write holds after the SET if it holds before. Without
  -- write access for the community nothing is needed to survive.
  pub process_set_request-Survives :
      (s : security.State) (request response : SnmpPacket) (m : mib.State) (P : mib.State → Type 0)
      → (security.is_write_allowed s request.community ≡ true → Survives s request.community P)
      → P m
      → P (process_set_request mib security s request (response, m)).1
  unfolding process_set_request
  process_set_request-Survives s request response m P keeps h =
      elim (Bool-cases (security.is_write_allowed s request.community)) [
        | inr e ↦ rw e h
        | inl e ↦ rw e (set_loop-Survives s request P (keeps e) request.variable_bindings _ m h)
      ]

  -- A binding is echoed, or answered by NULL with an error.
  abbrev pub Answered : SnmpPacket → VariableBinding → SnmpPacket → SnmpPacket → Type 0
  Answered request v response result =
      (result ≡ add_variable_binding v response)
      ⊎ ((code : ℕ) × (0 < code)
          × (result ≡ add_variable_binding (null_binding v.oid) (set_error code request response)))

  write_one-Answered :
      (request : SnmpPacket) (v : VariableBinding) (response : SnmpPacket) (r : Bool × mib.State)
      → Answered request v response (write_one mib security request v response r).0
  unfolding write_one
  write_one-Answered request v response (true, m) = inl refl
  write_one-Answered request v response (false, m) = inr (Error.wrong_value, omega arith, refl)

  pub set_one-Answered :
      (s : security.State) (request : SnmpPacket) (v : VariableBinding) (response : SnmpPacket)
      (m : mib.State)
      → Answered request v response (set_one mib security s request v (response, m)).0
  unfolding set_one
  set_one-Answered s request v response m =
      elim (Bool-cases (security.is_oid_allowed s request.community (mib.oid_to_string v.oid))) [
        | inr e ↦ rw e (inr (Error.no_access, omega arith, refl))
        | inl e ↦ elim (Option-cases (mib.get_value m v.oid)) [
          | inl g ↦ rw (e, g, set_one) (inr (Error.no_such_name, omega arith, refl))
          | inr (old, g) ↦ elim (Bool-cases (mib.is_scalar m v.oid)) [
            | inl k ↦ rw (e, g, k, set_one) (inr (Error.read_only, omega arith, refl))
            | inr k ↦ rw (e, g, k, set_one) (write_one-Answered request v response _)
          ]
        ]
      ]

  abbrev pub oids : List VariableBinding → List Bytes
  oids = map (λ v. v.oid)

  -- A later binding takes no error back.
  abbrev pub Reports : List VariableBinding → SnmpPacket → SnmpPacket → Type 0
  Reports vs response result =
      (oids result.variable_bindings ≡ oids response.variable_bindings ++ oids vs)
      × (0 < response.error_status → 0 < result.error_status)
      × (result.error_status ≡ 0 → result.variable_bindings ≡ response.variable_bindings ++ vs)

  -- One more binding under its name, in front of what the rest reports.
  Reports-names :
      (x v : VariableBinding) (vs : List VariableBinding) (before after : List VariableBinding)
      → x.oid ≡ v.oid
      → oids after ≡ oids (before ++ x ∷ []) ++ oids vs
      → oids after ≡ oids before ++ oids (v ∷ vs)
  Reports-names x v vs before after same e = e ∙ simp (map-append, append_assoc, same)

  Reports-cons :
      (request response r result : SnmpPacket) (v : VariableBinding) (vs : List VariableBinding)
      → Answered request v response r
      → Reports vs r result
      → Reports (v ∷ vs) response result
  Reports-cons request response r result v vs (inl e) (names, keeps, echoes) = (
    Reports-names v v vs response.variable_bindings result.variable_bindings refl
        (names ∙ ap (λ (q : SnmpPacket). oids q.variable_bindings ++ oids vs) e),
    λ h. keeps (subst (λ (q : SnmpPacket). 0 < q.error_status) (sym e) h),
    λ h.
        echoes h
        ∙ ap (λ (q : SnmpPacket). q.variable_bindings ++ vs) e
        ∙ append_assoc response.variable_bindings (v ∷ []) vs,
  )
  Reports-cons request response r result v vs (inr (code, nonzero, e)) (names, keeps, echoes) =
      let failed = keeps (subst (λ (q : SnmpPacket). 0 < q.error_status) (sym e) nonzero) in
      (
        Reports-names (null_binding v.oid) v vs response.variable_bindings result.variable_bindings
            refl (names ∙ ap (λ (q : SnmpPacket). oids q.variable_bindings ++ oids vs) e),
        λ h. failed,
        λ h. absurd (omega arith),
      )

  pub set_loop-Reports :
      (s : security.State) (request : SnmpPacket) (vs : List VariableBinding)
      (response : SnmpPacket) (m : mib.State)
      → Reports vs response (set_loop mib security s request vs (response, m)).0
  unfolding set_loop
  set_loop-Reports s request [] response m = (rw append-nil, λ h. h, λ h. rw append-nil)
  set_loop-Reports s request (v ∷ vs) response m =
      let r = set_one mib security s request v (response, m) in
      Reports-cons request response r.0 (set_loop mib security s request vs r).0 v vs
        (set_one-Answered s request v response m) (set_loop-Reports s request vs r.0 r.1)

  -- With write access the response to a SET has behind its bindings one for
  -- each binding of the request, in order and under the same name; an error status that is set stays
  -- set; and where the status is noError in the end, each binding of the request is echoed as it is.
  pub process_set_request-Reports :
      (s : security.State) (request response : SnmpPacket) (m : mib.State)
      → security.is_write_allowed s request.community ≡ true
      → Reports request.variable_bindings response
          (process_set_request mib security s request (response, m)).0
  unfolding process_set_request
  process_set_request-Reports s request response m e =
      rw e (set_loop-Reports s request request.variable_bindings _ m)
