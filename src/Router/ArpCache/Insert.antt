-- ===== src/Router/ArpCache/Insert.antt =====
-- arpcache.c: the insertion of an address, and the packets that wait for it.
use computer_network_labs.Router.State.{
  iface_send_packet, lock, unlock, ArpCacheEntry, ArpReq, Router, System,
}
use computer_network_labs.Router.ArpCache.{
  send_pending, answer_loop, answer, update_loop, choose_loop, set_entry, arpcache_insert,
}
use computer_network_labs.Router.Run.{ok}
use computer_network_labs.Base.{
  ltb, ◌==◌, if◌then◌else◌, Bool-cases, length, ℕ, zero, suc, ◌+◌, ◌≤◌, ◌<◌, ◌≡◌, refl, sym, ap,
  ◌∙◌, ◌⊎◌, inl, inr, true, false, not, ◌&&◌, none, some, List, [], ◌∷◌, ◌++◌, append-nil,
  append_assoc, arith,
}
use computer_network_labs.Device.{Mac, IfaceInfo}
use computer_network_labs.Router.Packet.{Packet, Frame, ip_frame}

-- The frames that wait for an address, with the address filled in, each with its interface.
abbrev pub addressed : IfaceInfo → Mac → List Packet → List (IfaceInfo × Frame)
addressed iface mac [] = []
addressed iface mac (packet ∷ packets) =
    (iface, ip_frame (record packet { dhost = mac })) ∷ addressed iface mac packets

abbrev pub waiting : ℕ → Mac → List ArpReq → List (IfaceInfo × Frame)
waiting ip4 mac [] = []
waiting ip4 mac (req ∷ reqs) =
    if req.ip4 == ip4
    then addressed req.iface mac req.cached_packets ++ waiting ip4 mac reqs
    else waiting ip4 mac reqs

abbrev pub others : ℕ → List ArpReq → List ArpReq
others ip4 [] = []
others ip4 (req ∷ reqs) = if req.ip4 == ip4 then others ip4 reqs else req ∷ others ip4 reqs

send_pending-eq :
    (iface : IfaceInfo) (mac : Mac) (packets : List Packet) (r : Router)
    → send_pending iface mac packets r
      ≡ record r { outbox = r.outbox ++ addressed iface mac packets }
unfolding send_pending iface_send_packet
send_pending-eq iface mac [] r = ap (λ o. record r { outbox = o }) (sym (append-nil r.outbox))
send_pending-eq iface mac (packet ∷ packets) r =
    send_pending-eq iface mac packets _
    ∙ ap (λ o. record r { outbox = o })
        (append_assoc r.outbox (_ ∷ []) (addressed iface mac packets))

answer_loop-eq :
    (ip4 : ℕ) (mac : Mac) (reqs : List ArpReq) (r : Router)
    → answer_loop ip4 mac reqs r
      ≡ (others ip4 reqs, record r { outbox = r.outbox ++ waiting ip4 mac reqs })
unfolding answer_loop
answer_loop-eq ip4 mac [] r = ap (λ o. ([], record r { outbox = o })) (sym (append-nil r.outbox))
answer_loop-eq ip4 mac (req ∷ reqs) r = ground (
  arith,
  send_pending-eq req.iface mac req.cached_packets r,
  answer_loop-eq ip4 mac reqs r,
  answer_loop-eq ip4 mac reqs
      (record r { outbox = r.outbox ++ addressed req.iface mac req.cached_packets }),
  append_assoc r.outbox (addressed req.iface mac req.cached_packets) (waiting ip4 mac reqs),
)

-- The table holds a valid entry of the address.
abbrev pub Caches : ℕ → Mac → List ArpCacheEntry → Type 0
Caches ip4 mac [] = ⊥
Caches ip4 mac (e ∷ entries) =
    ((1 ≤ e.valid) × (e.ip4 ≡ ip4) × (e.mac ≡ mac)) ⊎ Caches ip4 mac entries

-- No entry is from the future.
abbrev pub AllPast : ℕ → List ArpCacheEntry → Type 0
AllPast now [] = Unit {0}
AllPast now (e ∷ entries) = (e.added ≤ now) × AllPast now entries

update_loop_cases :
    (now ip4 : ℕ) (mac : Mac) (entries : List ArpCacheEntry)
    → AllPast now entries
    → (update_loop now ip4 mac entries ≡ none)
      ⊎ ((out : List ArpCacheEntry) × (update_loop now ip4 mac entries ≡ some out)
          × Caches ip4 mac out
          × AllPast now out)
unfolding update_loop
update_loop_cases now ip4 mac [] p = inl refl
update_loop_cases now ip4 mac (x ∷ entries) p =
    elim (Bool-cases (not (x.valid == 0) && (x.ip4 == ip4))) [
      | inl h ↦ inr (
        record x { mac = mac; added = now } ∷ entries,
        ground (arith, h),
        inl (ground (arith, h), ground (arith, h), refl),
        (omega arith, p.1),
      )
      | inr h ↦ elim (update_loop_cases now ip4 mac entries p.1) [
        | inl e ↦ inl (ground (arith, h, e))
        | inr (out, e, c, q) ↦ inr (x ∷ out, ground (arith, h, e), inr c, (p.0, q))
      ]
    ]

choose_loop-lt :
    (k oldest j : ℕ) (entries : List ArpCacheEntry)
    → j < k
    → (i : ℕ) × (choose_loop k oldest (some j) entries ≡ some i) × (i < k + length entries)
unfolding choose_loop
choose_loop-lt k oldest j [] h = (j, refl, omega arith)
choose_loop-lt k oldest j (e ∷ entries) h =
    let (i, run, l) = choose_loop-lt (suc k) oldest j entries (omega arith) in
    let (i', run', l') = choose_loop-lt (suc k) e.added k entries (omega arith) in
    elim (Bool-cases (e.valid == 0)) [
      | inl z ↦ (k, ground (arith, z), omega arith)
      | inr z ↦ elim (Bool-cases (ltb e.added oldest)) [
        | inl o ↦ (i', ground (arith, z, o, run'), omega arith)
        | inr o ↦ (i, ground (arith, z, o, run), omega arith)
      ]
    ]

choose_loop-some :
    (now : ℕ) (entries : List ArpCacheEntry)
    → 1 ≤ length entries
    → AllPast now entries
    → (i : ℕ) × (choose_loop 0 (now + 1) none entries ≡ some i) × (i < length entries)
unfolding choose_loop
choose_loop-some now [] h p = absurd (omega arith)
choose_loop-some now (e ∷ entries) h p =
    let (i, run, l) = choose_loop-lt 1 e.added 0 entries (omega arith) in
    elim (Bool-cases (e.valid == 0)) [
      | inl z ↦ (0, ground (arith, z), omega arith)
      | inr z ↦ (i, ground (arith, z, run), omega arith)
    ]

set_entry-Caches :
    (i : ℕ) (e : ArpCacheEntry) (entries : List ArpCacheEntry)
    → i < length entries
    → 1 ≤ e.valid
    → Caches e.ip4 e.mac (set_entry i e entries)
unfolding set_entry
set_entry-Caches i e [] h v = absurd (omega arith)
set_entry-Caches zero e (x ∷ entries) h v = inl (v, refl, refl)
set_entry-Caches (suc i) e (x ∷ entries) h v = inr (set_entry-Caches i e entries (omega arith) v)

set_entry-AllPast :
    (now i : ℕ) (e : ArpCacheEntry) (entries : List ArpCacheEntry)
    → e.added ≤ now
    → AllPast now entries
    → AllPast now (set_entry i e entries)
unfolding set_entry
set_entry-AllPast now i e [] h p = tt
set_entry-AllPast now zero e (x ∷ entries) h p = (h, p.1)
set_entry-AllPast now (suc i) e (x ∷ entries) h p = (p.0, set_entry-AllPast now i e entries h p.1)

-- With the mutex free, an entry in the table and none from the future, the address is in the table
-- afterwards, the packets that wait for it are sent in order, and its requests are gone.
pub arpcache_insert_lem :
    (sys : System) (ip4 : ℕ) (mac : Mac) (r : Router)
    → r.locked ≡ false
    → 1 ≤ length r.entries
    → AllPast sys.now r.entries
    → (entries : List ArpCacheEntry) × (arpcache_insert sys ip4 mac r
        ≡ ok (record r {
          entries = entries;
          req_list = others ip4 r.req_list;
          outbox = r.outbox ++ waiting ip4 mac r.req_list;
        }))
      × Caches ip4 mac entries
      × AllPast sys.now entries
unfolding arpcache_insert lock unlock answer
arpcache_insert_lem sys ip4 mac r free h p = elim (update_loop_cases sys.now ip4 mac r.entries p) [
  | inl e ↦
      let (i, run, l) = choose_loop-some sys.now r.entries h p in
      let new : ArpCacheEntry = record { ip4 = ip4; mac = mac; added = sys.now; valid = 1 } in
      let stored = set_entry i new r.entries in
      (
        stored,
        ground (
          arith,
          e,
          run,
          answer_loop-eq ip4 mac r.req_list (record r { locked = true; entries = stored }),
        ),
        set_entry-Caches i new r.entries l (omega arith),
        set_entry-AllPast sys.now i new r.entries (omega arith) p,
      )
  | inr (out, e, c, q) ↦ (
    out,
    ground
        (arith, e, answer_loop-eq ip4 mac r.req_list (record r { locked = true; entries = out })),
    c,
    q,
  )
]
