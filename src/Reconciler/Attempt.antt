-- ===== src/Reconciler/Attempt.antt =====
-- When `reconcileFipsPeer` asks for the connection.
use fipwave.Common.{
  ◌≡◌, ◌↔◌, refl, arith, ◌==◌, Bool, true, false, ◌&&◌, ◌||◌, if◌then◌else◌, ◌⊎◌, inl, inr,
  Bool-cases, sym, List, [], ◌∷◌, All,
}
use fipwave.Common.Texts.{same_text, same_text_iff}
use fipwave.SoundProof.{FipsPeer, FipsLink, FipsTransport}
use fipwave.Reconciler.{
  FipsConnectRequest, FipsControl, ControlData, peer_data, link_data, transport_data, query_failed,
  peers_query, transports_query, links_query, Call, asked, connect_peer, Attempted, any,
  is_connected, is_sound, sound_transport_ids, is_live, connect, with_links, with_transports,
  with_peers, reconcile_fips_peer,
}

-- The peer is connected over sound.
unfoldable pub ConnectedPeer : FipsConnectRequest → FipsPeer → Type 0
ConnectedPeer request p =
    (p.npub ≡ request.npub) × (p.connectivity ≡ "connected") × (p.transport_type ≡ "sound")

-- A live link that runs over a sound transport in use.
unfoldable pub SoundLink : FipsLink → FipsTransport → Type 0
SoundLink l t =
    (t.type ≡ "sound")
    × ((t.state ≡ "up") ⊎ (t.state ≡ "active"))
    × (t.transport_id ≡ l.transport_id)
    × ((l.state ≡ "connected") ⊎ (l.state ≡ "active"))

-- The acoustic session is ready, the daemon answers, and neither is the peer connected over sound
-- nor is a link over sound in the making.
pub record Unconnected (control : FipsControl) (request : FipsConnectRequest) (ready : Bool)
    : Type 0 where
  pub peers : List FipsPeer
  pub transports : List FipsTransport
  pub links : List FipsLink
  pub acoustic : ready ≡ true
  pub peers_known : control.query peers_query ≡ peer_data peers
  pub transports_known : control.query transports_query ≡ transport_data transports
  pub links_known : control.query links_query ≡ link_data links
  pub no_peer : All (λ p. ¬ ConnectedPeer request p) peers
  pub no_link : All (λ l. All (λ t. ¬ SoundLink l t) transports) links

-- The call by which the connection is asked for.
abbrev pub asks : List Call → Bool
asks [] = false
asks (asked query ∷ cs) = asks cs
asks (connect_peer request ∷ cs) = true

any_none :
    {A : Type 0} (p : A → Bool) (P : A → Type 0)
    → ((x : A) → (p x ≡ false) ↔ P x)
    → (xs : List A) → (any p xs ≡ false) ↔ All P xs
any_none p P each [] = (λ h. tt, λ h. refl)
any_none p P each (x ∷ xs) = more (any_none p P each xs) (p x) refl
  where
    more :
        (any p xs ≡ false) ↔ All P xs
        → (b : Bool) → p x ≡ b
        → ((b || any p xs) ≡ false) ↔ All P (x ∷ xs)
    more rest true e = (λ h. cc, λ h. cc (e, (each x).1 h.0))
    more rest false e = (λ h. ((each x).0 e, rest.0 h), λ h. rest.1 h.1)

connected_peer :
    (request : FipsConnectRequest) (p : FipsPeer)
    → (is_connected request p ≡ false) ↔ (¬ ConnectedPeer request p)
unfolding is_connected ConnectedPeer
connected_peer request p = (
  λ h. ground (
    arith,
    same_text_iff p.npub request.npub,
    same_text_iff p.connectivity "connected",
    same_text_iff p.transport_type "sound",
  ),
  λ h. ground (
    arith,
    same_text_iff p.npub request.npub,
    same_text_iff p.connectivity "connected",
    same_text_iff p.transport_type "sound",
  ),
)

over_sound : FipsLink → FipsTransport → Bool
over_sound l t =
    is_sound t
    && ((t.transport_id == l.transport_id)
        && (same_text l.state "connected" || same_text l.state "active"))

over_sound_iff : (l : FipsLink) (t : FipsTransport) → (over_sound l t ≡ false) ↔ (¬ SoundLink l t)
unfolding over_sound is_sound SoundLink
over_sound_iff l t =
    let kind = same_text_iff t.type "sound" in
    let up = same_text_iff t.state "up" in
    let in_use = same_text_iff t.state "active" in
    let made = same_text_iff l.state "connected" in
    let active = same_text_iff l.state "active" in
    (
      λ h. ground (arith, kind, up, in_use, made, active),
      λ h. ground (arith, kind, up, in_use, made, active),
    )

distribute : (a b c : Bool) → ((a || b) && c) ≡ ((a && c) || (b && c))
distribute true b true = refl
distribute true true false = refl
distribute true false false = refl
distribute false b c = refl

is_live-any :
    (l : FipsLink) (ts : List FipsTransport)
    → is_live (sound_transport_ids ts) l ≡ any (over_sound l) ts
unfolding is_live sound_transport_ids over_sound
is_live-any l [] = refl
is_live-any l (t ∷ ts) =
    let rest = is_live-any l ts in
    elim (Bool-cases (is_sound t)) [
      | inl e ↦
          rw (e, sym rest)
            (distribute (t.transport_id == l.transport_id)
              (any (λ id. id == l.transport_id) (sound_transport_ids ts))
              (same_text l.state "connected" || same_text l.state "active"))
      | inr e ↦ rw (e) rest
    ]

sound_link :
    (l : FipsLink) (ts : List FipsTransport)
    → (is_live (sound_transport_ids ts) l ≡ false) ↔ All (λ t. ¬ SoundLink l t) ts
sound_link l ts = rw (is_live-any l ts) (any_none _ _ (over_sound_iff l) ts)

-- The calls after each answer.
else_asks :
    (b : Bool) (x y : Attempted)
    → asks x.1 ≡ false
    → asks (if b then x else y).1 ≡ true
    → (b ≡ false) × (asks y.1 ≡ true)
else_asks true x y quiet h = cc
else_asks false x y quiet h = (refl, h)

links_asked :
    (control : FipsControl) (request : FipsConnectRequest) (ts : List FipsTransport)
    (d : ControlData)
    → asks (with_links control request (transport_data ts) d).1 ≡ true
    → (ls : List FipsLink) × (d ≡ link_data ls)
      × (any (is_live (sound_transport_ids ts)) ls ≡ false)
unfolding with_links connect
links_asked control request ts (link_data ls) h =
    let (none_live, _) = else_asks (any (is_live (sound_transport_ids ts)) ls) _ _ refl h in
    (ls, refl, none_live)
links_asked control request ts (peer_data x) h = cc
links_asked control request ts (transport_data x) h = cc
links_asked control request ts query_failed h = cc

no_transports-peers :
    (control : FipsControl) (request : FipsConnectRequest) (ps : List FipsPeer) (d : ControlData)
    → asks (with_links control request (peer_data ps) d).1 ≡ false
unfolding with_links
no_transports-peers control request ps (peer_data x) = refl
no_transports-peers control request ps (link_data x) = refl
no_transports-peers control request ps (transport_data x) = refl
no_transports-peers control request ps query_failed = refl

no_transports-links :
    (control : FipsControl) (request : FipsConnectRequest) (ls : List FipsLink) (d : ControlData)
    → asks (with_links control request (link_data ls) d).1 ≡ false
unfolding with_links
no_transports-links control request ls (peer_data x) = refl
no_transports-links control request ls (link_data x) = refl
no_transports-links control request ls (transport_data x) = refl
no_transports-links control request ls query_failed = refl

transports_asked :
    (control : FipsControl) (request : FipsConnectRequest) (d : ControlData)
    → asks (with_transports control request d).1 ≡ true
    → (ts : List FipsTransport) × (ls : List FipsLink) × (d ≡ transport_data ts)
      × (control.query links_query ≡ link_data ls)
      × (any (is_live (sound_transport_ids ts)) ls ≡ false)
unfolding with_transports
transports_asked control request (transport_data ts) h =
    let (ls, known, none_live) = links_asked control request ts (control.query links_query) h in
    (ts, ls, refl, known, none_live)
transports_asked control request (peer_data x) h =
    cc (h, no_transports-peers control request x (control.query links_query))
transports_asked control request (link_data x) h =
    cc (h, no_transports-links control request x (control.query links_query))
transports_asked control request query_failed h = cc

peers_asked :
    (control : FipsControl) (request : FipsConnectRequest) (d : ControlData)
    → asks (with_peers control request d).1 ≡ true
    → (ps : List FipsPeer) × (d ≡ peer_data ps)
      × (any (is_connected request) ps ≡ false)
      × (asks (with_transports control request (control.query transports_query)).1 ≡ true)
unfolding with_peers
peers_asked control request (peer_data ps) h =
    let (none_connected, rest) = else_asks (any (is_connected request) ps) _ _ refl h in
    (ps, refl, none_connected, rest)
peers_asked control request (transport_data x) h = cc
peers_asked control request (link_data x) h = cc
peers_asked control request query_failed h = cc

reconcile-asks :
    (control : FipsControl) (request : FipsConnectRequest) (ready : Bool)
    → asks (reconcile_fips_peer control request ready).1 ≡ true
    → Unconnected control request ready
unfolding reconcile_fips_peer
reconcile-asks control request false h = cc
reconcile-asks control request true h =
    let (ps, peers_known, none_connected, more) =
      peers_asked control request (control.query peers_query) h in
    let (ts, ls, transports_known, links_known, none_live) =
      transports_asked control request (control.query transports_query) more in
    record {
      peers = ps;
      transports = ts;
      links = ls;
      acoustic = refl;
      peers_known = peers_known;
      transports_known = transports_known;
      links_known = links_known;
      no_peer = (any_none _ _ (connected_peer request) ps).0 none_connected;
      no_link = (any_none _ _ (λ l. sound_link l ts) ls).0 none_live;
    }

-- reconcileFipsPeer asks the daemon for the connection exactly when the acoustic session is ready,
-- the daemon answers the three queries, no peer of the key is connected over sound, and no link
-- that is connected or active runs over a sound transport that is up or active.
pub reconcile_fips_peer_lem :
    (control : FipsControl) (request : FipsConnectRequest) (ready : Bool)
    → (asks (reconcile_fips_peer control request ready).1 ≡ true)
      ↔ Unconnected control request ready
unfolding reconcile_fips_peer with_peers with_transports with_links connect
reconcile_fips_peer_lem control request ready = (
  reconcile-asks control request ready,
  λ u.
      rw
        (
          u.acoustic,
          u.peers_known,
          u.transports_known,
          u.links_known,
          (any_none _ _ (connected_peer request) u.peers).1 u.no_peer,
          (any_none _ _ (λ l. sound_link l u.transports) u.links).1 u.no_link,
        )
        refl,
)
