-- ===== src/Directory/Registration.antt =====
-- About the e-mail addresses of accounts: `createUser` of apps/api/src/db/store.js.
use volt_hub_csms.Prelude.{
  ℕ, suc, ◌<◌, ◌≡◌, refl, Bool, true, false, String, List, [], ◌∷◌, none, arith, nat_eq,
  text_comparable,
}
use volt_hub_csms.Prelude.Lists.{any, count}
use volt_hub_csms.Prelude.Dict.{
  Dict, values, lookup, insert, lookup-insert, count-values-insert_new, any-values-insert_new,
}
use volt_hub_csms.Prelude.Outcome.{Outcome, ok, err}
use volt_hub_csms.State.{Store, Directory, User, Failure, failure, duplicate_email}
use volt_hub_csms.Directory.{
  UserRequest, has_email, begin_create_user, finish_create_user, create_user, new_user,
}

-- Numbers above the sequence are free.
abbrev pub IsNumbered : Directory → Type 0
IsNumbered d = (id : ℕ) → d.user_seq < id → lookup id d.users ≡ none

module _ (lower : String → String) where
  -- How many users have an e-mail address.
  abbrev pub accounts : String → Store → ℕ
  accounts email s = count (has_email lower email) (values s.directory.users)

  count-any : (p : User → Bool) (us : List User) → any p us ≡ false → count p us ≡ 0
  count-any p [] h = refl
  count-any p (u ∷ us) h = ground (arith, count-any p us)

  abbrev numbered_next : Store → Store
  numbered_next s = record s {
    directory = record s.directory { user_seq = suc s.directory.user_seq };
  }

  begin_free :
      (q : UserRequest) (s : Store)
      → any (has_email lower q.email) (values s.directory.users) ≡ false
      → begin_create_user lower q s ≡ (ok (suc s.directory.user_seq), numbered_next s)
  unfolding begin_create_user
  begin_free q s h = rw h refl

  users_after_two :
      (email : String) (u v : User) (id : ℕ) (d : Dict ℕ User)
      → lookup id d ≡ none
      → lookup (suc id) d ≡ none
      → any (has_email lower email) (values d) ≡ false
      → has_email lower email u ≡ true
      → has_email lower email v ≡ true
      → count (has_email lower email) (values (insert (suc id) v (insert id u d))) ≡ 2
  users_after_two email u v id d a b h k l = ground (
    arith,
    count-any (has_email lower email) (values d) h,
    count-values-insert_new (has_email lower email) id u d a,
    count-values-insert_new (has_email lower email) (suc id) v (insert id u d),
    lookup-insert id (suc id) u d,
  )

  -- Both registrations of two that run one into the other: each passes the check before either has
  -- its password hash.
  abbrev pub race :
      UserRequest
      → UserRequest
      → String
      → String
      → ℕ
      → Store
      → Outcome Failure ℕ × Outcome Failure ℕ × Store
  race q r h1 h2 now s =
      let b1 = begin_create_user lower q s in
      let b2 = begin_create_user lower r b1.1 in
      let f1 = finish_create_user lower now (suc s.directory.user_seq) q h1 b2.1 in
      let f2 = finish_create_user lower now (suc (suc s.directory.user_seq)) r h2 f1.1 in
      (b1.0, b2.0, f2.1)

  -- Where two registrations of the same free address, lowered already, run one into the other, and
  -- numbers above the sequence are free, both get a number and two accounts have the address.
  pub create_user_races :
      (q r : UserRequest) (h1 h2 : String) (now : ℕ) (s : Store)
      → IsNumbered s.directory
      → r.email ≡ q.email
      → lower q.email ≡ q.email
      → any (has_email lower q.email) (values s.directory.users) ≡ false
      → ((race q r h1 h2 now s).0 ≡ ok (suc s.directory.user_seq))
        × ((race q r h1 h2 now s).1 ≡ ok (suc (suc s.directory.user_seq)))
        × (accounts q.email (race q r h1 h2 now s).2 ≡ 2)
  unfolding finish_create_user
  create_user_races q r h1 h2 now s n e l h =
      let again : any (has_email lower r.email) (values s.directory.users) ≡ false = rw e h in
      rw (begin_free q s h) (
        rw (begin_free r (numbered_next s) again) (
          refl,
          refl,
          users_after_two q.email (new_user lower (suc s.directory.user_seq) q h1 now)
              (new_user lower (suc (suc s.directory.user_seq)) r h2 now) (suc s.directory.user_seq)
              s.directory.users (n (suc s.directory.user_seq) (omega arith))
              (n (suc (suc s.directory.user_seq)) (omega arith)) h
              (ground (arith, text_comparable.same_iff (lower q.email) q.email))
              (ground (arith, text_comparable.same_iff (lower r.email) q.email)),
        ))

  -- While addresses are stored as they are lowered, one registration after the other is refused: an
  -- address that an account has is not given again, whatever else the request says.
  pub create_user_again :
      (q r : UserRequest) (h1 h2 : String) (t1 t2 : ℕ) (s : Store)
      → lookup (suc s.directory.user_seq) s.directory.users ≡ none
      → r.email ≡ q.email
      → lower q.email ≡ q.email
      → (u : User) → (create_user lower t1 q h1 s).0 ≡ ok u
      → create_user lower t2 r h2 (create_user lower t1 q h1 s).1
        ≡ (err (failure duplicate_email 409), (create_user lower t1 q h1 s).1)
  unfolding create_user begin_create_user finish_create_user
  create_user_again q r h1 h2 t1 t2 s free e l u h = ground (
    arith,
    any-values-insert_new (has_email lower q.email) (suc s.directory.user_seq)
        (new_user lower (suc s.directory.user_seq) q h1 t1) s.directory.users free,
    text_comparable.same_iff (lower q.email) q.email,
  )
