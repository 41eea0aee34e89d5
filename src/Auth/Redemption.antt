-- ===== src/Auth/Redemption.antt =====
-- Theorems on invite codes (backend/internal/auth/invite.go, lines 82-181).
use hamsa.Base.{
  arith, ◌⊎◌, ◌≡◌, refl, ap, ◌∙◌, sym, true, false, ◌&&◌, Option, none, some, ℕ, exists, ◌==◌, List,
  [], ◌∷◌, ltb, inl, inr, if◌then◌else◌,
}
use hamsa.Base.Text.{Text, text_eq}
use hamsa.Server.{ApiError, World, database, ◌>>=◌, ◌>>◌, tick}
use hamsa.Server.Rules.{Ends, imp-Ends}
use hamsa.Auth.Invites.{
  InviteCode, InviteDb, Role, comes_first, newest, can_consume, mark_consumed, consume, redeem,
  latest, is_iranian_mobile, registrant_role,
}

abbrev IWorld : Type 0
IWorld = World InviteDb

mark_consumed-exists :
    (id at : ℕ) (cs : List InviteCode)
    → exists (can_consume id) (mark_consumed id at (record { invites = cs })).invites ≡ false
mark_consumed-exists id at [] = refl
mark_consumed-exists id at (c ∷ cs) = ground (arith, mark_consumed-exists id at cs)

-- An invite without the mark of its use.
abbrev key : Option InviteCode → Option InviteCode
key none = none
key (some c) = some (record c { consumed_at = none })

newest-mark_consumed :
    (phone : Text) (id at : ℕ) (b b' : Option InviteCode) (cs : List InviteCode)
    → key b' ≡ key b
    → key (newest phone b' (mark_consumed id at (record { invites = cs })).invites)
      ≡ key (newest phone b cs)
newest-mark_consumed phone id at b b' [] h = h
newest-mark_consumed phone id at none none (c ∷ cs) h =
    newest-mark_consumed phone id at (if text_eq c.phone phone then some c else none) _ cs
      (ground arith)
newest-mark_consumed phone id at none (some b') (c ∷ cs) h = cc
newest-mark_consumed phone id at (some b) none (c ∷ cs) h = cc
newest-mark_consumed phone id at (some b) (some b') (c ∷ cs) h =
    newest-mark_consumed phone id at
      (if text_eq c.phone phone && comes_first c b then some c else some b) _ cs (ground arith)

-- The newest invite of the phone was valid and unused, and it is marked as used.
abbrev pub Redeemed : (ℕ → ℕ) → Text → ℕ → IWorld → Role → IWorld → Type 0
Redeemed hash phone code w r w' =
    (c : InviteCode) × (newest phone none w.db.invites ≡ some c)
    × (is_iranian_mobile phone ≡ true)
    × (ltb c.expires_at w.now ≡ false)
    × ((c.code_hash == hash code) ≡ true)
    × (exists (can_consume c.id) w.db.invites ≡ true)
    × (r ≡ registrant_role c.role)
    × (w'.db ≡ mark_consumed c.id w.now w.db)

abbrev pub Unredeemed : IWorld → ApiError → IWorld → Type 0
Unredeemed w e w' = w'.db ≡ w.db

-- The rows are untouched, or a mark was sent that no row takes.
abbrev Missed : Text → IWorld → ApiError → IWorld → Type 0
Missed phone w e w' =
    (w'.db ≡ w.db)
    ⊎ ((c : InviteCode) × (newest phone none w.db.invites ≡ some c)
        × (exists (can_consume c.id) w.db.invites ≡ false)
        × (w'.db ≡ mark_consumed c.id w.now w.db))

redeem-Ends :
    (hash : ℕ → ℕ) (phone : Text) (code : ℕ) (w : IWorld)
    → Ends (Redeemed hash phone code w) (Missed phone w) (redeem hash phone code w)
unfolding redeem latest consume hamsa.Server.Monad.first hamsa.Server.Monad.exec
    hamsa.Server.Monad.time_now
redeem-Ends hash phone code w = ground arith

mark_consumed-none :
    (id at : ℕ) (cs : List InviteCode)
    → exists (can_consume id) cs ≡ false
    → (mark_consumed id at (record { invites = cs })).invites ≡ cs
mark_consumed-none id at [] h = refl
mark_consumed-none id at (c ∷ cs) h = ground (arith, mark_consumed-none id at cs)

pub redeem-Redeemed :
    (hash : ℕ → ℕ) (phone : Text) (code : ℕ) (w : IWorld)
    → Ends (Redeemed hash phone code w) (Unredeemed w) (redeem hash phone code w)
redeem-Redeemed hash phone code w =
    imp-Ends _ _ (Redeemed hash phone code w) (Missed phone w) (redeem hash phone code w)
      (redeem-Ends hash phone code w) (λ _ _ q. q)
      (λ e w' q. elim q [
        | inl h ↦ h
        | inr h ↦
            h.3
            ∙ ap (λ cs. record w.db { invites = cs })
                (mark_consumed-none h.0.id w.now w.db.invites h.2)
      ])

-- The invite that a second attempt finds is the one that is used up.
same_invite :
    (phone : Text) (w : IWorld) (c c' : InviteCode) (db : InviteDb)
    → newest phone none w.db.invites ≡ some c
    → db ≡ mark_consumed c.id w.now w.db
    → newest phone none db.invites ≡ some c'
    → c'.id ≡ c.id
same_invite phone w c c' db p q r =
    let k : key (some c') ≡ key (some c) =
      ap key (sym r)
      ∙ ap (λ d. key (newest phone none d.invites)) q
      ∙ newest-mark_consumed phone c.id w.now none none w.db.invites refl
      ∙ ap key p in
    cc

-- After a code was redeemed, no code of the same phone is redeemed any more in that database: an attempt
-- with any code, at any time and whatever faults the database then has, fails, and changes no invite.
pub redeem-redeem :
    (hash : ℕ → ℕ) (phone : Text) (code code' : ℕ) (w later : IWorld)
    → Ends
        (λ r w1.
          Ends (λ _ _. ⊥) (Unredeemed w1) (redeem hash phone code' (record later { db = w1.db })))
        (Unredeemed w)
        (redeem hash phone code w)
redeem-redeem hash phone code code' w later =
    imp-Ends _ _ (Redeemed hash phone code w) (Unredeemed w) (redeem hash phone code w)
      (redeem-Redeemed hash phone code w)
      (λ r w1 q.
        let again : IWorld = record later { db = w1.db } in
        imp-Ends _ _ (Redeemed hash phone code' again) (Unredeemed again)
          (redeem hash phone code' again) (redeem-Redeemed hash phone code' again)
          (λ r' w2 q'.
            let e : q'.0.id ≡ q.0.id = same_invite phone w q.0 q'.0 w1.db q.1 q.7 q'.1 in
            let f : exists (can_consume q'.0.id) w1.db.invites ≡ false =
              (λ i. exists (can_consume (e i)) (q.7 i).invites)
              ∙ mark_consumed-exists q.0.id w.now w.db.invites in
            cc)
          (λ _ _ k. k))
      (λ _ _ k. k)
