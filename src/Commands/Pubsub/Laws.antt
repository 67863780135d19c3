-- ===== src/Commands/Pubsub/Laws.antt =====
-- commands/handlers/pubsub.rs: the subscriptions of a client and the tokens under the channels.
use redrum_db.Base.{
  ℕ, suc, ◌-◌, ◌≡◌, refl, ap, Bool, true, false, List, [], ◌∷◌, ◌++◌, Bytes, bytes_eq,
  bytes_eq_sound, bytes_eq_refl, if◌then◌else◌, Option-cases, Bool-cases, inl, inr, arith, ◌==◌,
  ==_refl,
}
use redrum_db.Base.Text.{codes}
use redrum_db.Base.Dict.{lookup, lookup-insert}
use redrum_db.Database.{PubSub}
use redrum_db.Commands.Context.{Context, contains_bytes, command_handler_permitted}
use redrum_db.Commands.Pubsub.{
  tokens_of, add_token, remove_token, remove_channel, drop_token, subscribe, subscribe_body,
  unsubscribe, unsubscribe_body, unsubscribe_in, leave,
}

-- How often the token stands under a channel, and how often the client has subscribed to it.
unfoldable pub count_token : ℕ → List ℕ → ℕ
count_token t [] = 0
count_token t (x ∷ xs) = if x == t then suc (count_token t xs) else count_token t xs

unfoldable pub count_channel : Bytes → List Bytes → ℕ
count_channel c [] = 0
count_channel c (x ∷ xs) = if bytes_eq c x then suc (count_channel c xs) else count_channel c xs

-- Every channel has the client's token as often as the client has subscribed to it.
abbrev pub IsConsistent : Context → Type 0
IsConsistent ctx =
    (c : Bytes)
    → count_token ctx.token (tokens_of (lookup c ctx.pubsub)) ≡ count_channel c ctx.subscriptions

-- The other clients' tokens stand as often under each channel as before.
abbrev pub SparesOthers : Context → Context → Type 0
SparesOthers ctx ctx' =
    (t : ℕ) (c : Bytes)
    → (t == ctx.token) ≡ false
    → count_token t (tokens_of (lookup c ctx'.pubsub))
      ≡ count_token t (tokens_of (lookup c ctx.pubsub))

count_token-append :
    (t x : ℕ) (xs : List ℕ)
    → count_token t (xs ++ (x ∷ [])) ≡ (if x == t then suc (count_token t xs) else count_token t xs)
unfolding count_token
count_token-append t x [] = refl
count_token-append t x (y ∷ xs) = ground (arith, count_token-append t x xs)

count_channel-append :
    (c x : Bytes) (xs : List Bytes)
    → count_channel c (xs ++ (x ∷ []))
      ≡ (if bytes_eq c x then suc (count_channel c xs) else count_channel c xs)
unfolding count_channel
count_channel-append c x [] = refl
count_channel-append c x (y ∷ xs) = ground (arith, count_channel-append c x xs)

count_token-remove :
    (t x : ℕ) (xs : List ℕ)
    → count_token t (remove_token x xs)
      ≡ (if x == t then count_token t xs - 1 else count_token t xs)
unfolding count_token remove_token
count_token-remove t x [] = ground arith
count_token-remove t x (y ∷ xs) = ground (arith, count_token-remove t x xs)

count_channel-remove :
    (c x : Bytes) (xs : List Bytes)
    → count_channel c (remove_channel x xs)
      ≡ (if bytes_eq c x then count_channel c xs - 1 else count_channel c xs)
unfolding count_channel remove_channel
count_channel-remove c x [] = ground arith
count_channel-remove c x (y ∷ xs) = ground (
  arith,
  count_channel-remove c x xs,
  bytes_eq_sound c x,
  bytes_eq_sound x y,
  bytes_eq_sound c y,
  bytes_eq_refl x,
)

tokens_of-add :
    (channel c : Bytes) (token : ℕ) (p : PubSub)
    → tokens_of (lookup c (add_token channel token p)) ≡ (
        if bytes_eq c channel
        then tokens_of (lookup channel p) ++ (token ∷ [])
        else tokens_of (lookup c p))
unfolding add_token tokens_of
tokens_of-add channel c token p =
    rw (lookup-insert channel c (tokens_of (lookup channel p) ++ (token ∷ [])) p)
      (elim (Bool-cases (bytes_eq c channel)) [ inl e ↦ rw e refl | inr e ↦ rw e refl ])

tokens_of-drop :
    (channel c : Bytes) (token : ℕ) (p : PubSub)
    → tokens_of (lookup c (drop_token channel token p)) ≡ (
        if bytes_eq c channel
        then remove_token token (tokens_of (lookup channel p))
        else tokens_of (lookup c p))
unfolding drop_token tokens_of remove_token
tokens_of-drop channel c token p = elim (Option-cases (lookup channel p)) [
  | inl e ↦
      rw (e, drop_token)
        (elim (Bool-cases (bytes_eq c channel)) [
          | inl f ↦ rw (f, bytes_eq_sound c channel f) (rw e refl)
          | inr f ↦ rw f refl
        ])
  | inr (ts, e) ↦
      rw (e, drop_token)
        (rw (lookup-insert channel c (remove_token token ts) p)
          (elim (Bool-cases (bytes_eq c channel)) [ inl f ↦ rw f refl | inr f ↦ rw f refl ]))
]

add_token-IsConsistent :
    (channel : Bytes) (ctx : Context)
    → IsConsistent ctx
    → IsConsistent (record ctx {
      subscriptions = ctx.subscriptions ++ (channel ∷ []);
      is_pubsub = true;
      pubsub = add_token channel ctx.token ctx.pubsub;
    })
add_token-IsConsistent channel ctx h c =
    rw
      (
        tokens_of-add channel c ctx.token ctx.pubsub,
        count_channel-append c channel ctx.subscriptions,
      )
      (elim (Bool-cases (bytes_eq c channel)) [
        | inl e ↦ rw e (
            rw
              (
                count_token-append ctx.token ctx.token (tokens_of (lookup channel ctx.pubsub)),
                ==_refl ctx.token,
              )
              (rw (bytes_eq_sound c channel e) (ap suc (h channel))))
        | inr e ↦ rw e (h c)
      ])

add_token-SparesOthers :
    (channel : Bytes) (ctx : Context) (t : ℕ) (c : Bytes)
    → (t == ctx.token) ≡ false
    → count_token t (tokens_of (lookup c (add_token channel ctx.token ctx.pubsub)))
      ≡ count_token t (tokens_of (lookup c ctx.pubsub))
add_token-SparesOthers channel ctx t c other =
    let other' : (ctx.token == t) ≡ false = ground arith in
    rw (tokens_of-add channel c ctx.token ctx.pubsub) (elim (Bool-cases (bytes_eq c channel)) [
      | inl e ↦ rw e (
          rw
            (
              count_token-append t ctx.token (tokens_of (lookup channel ctx.pubsub)),
              other',
              bytes_eq_sound c channel e,
            )
            refl)
      | inr e ↦ rw e refl
    ])

leave-IsConsistent :
    (channel : Bytes) (ctx : Context) → IsConsistent ctx → IsConsistent (leave channel ctx)
unfolding leave
leave-IsConsistent channel ctx h = elim (Bool-cases (contains_bytes ctx.subscriptions channel)) [
  | inr e ↦ rw e h
  | inl e ↦ rw e (left)
]
  where
    left :
        (c : Bytes)
        → count_token ctx.token (tokens_of (lookup c (drop_token channel ctx.token ctx.pubsub)))
          ≡ count_channel c (remove_channel channel ctx.subscriptions)
    left c =
        rw
          (
            tokens_of-drop channel c ctx.token ctx.pubsub,
            count_channel-remove c channel ctx.subscriptions,
          )
          (elim (Bool-cases (bytes_eq c channel)) [
            | inl e ↦ rw e (
                rw
                  (
                    count_token-remove ctx.token ctx.token (tokens_of (lookup channel ctx.pubsub)),
                    ==_refl ctx.token,
                  )
                  (rw (bytes_eq_sound c channel e) (ap (λ n. n - 1) (h channel))))
            | inr e ↦ rw e (h c)
          ])

leave-SparesOthers : (channel : Bytes) (ctx : Context) → SparesOthers ctx (leave channel ctx)
unfolding leave
leave-SparesOthers channel ctx t c other =
    elim (Bool-cases (contains_bytes ctx.subscriptions channel)) [
      | inr e ↦ rw e refl
      | inl e ↦ rw e (
          rw (tokens_of-drop channel c ctx.token ctx.pubsub)
            (elim (Bool-cases (bytes_eq c channel)) [
              | inl f ↦
                  let other' : (ctx.token == t) ≡ false = ground arith in
                  rw f (
                    rw
                      (
                        count_token-remove t ctx.token (tokens_of (lookup channel ctx.pubsub)),
                        other',
                        bytes_eq_sound c channel f,
                      )
                      refl)
              | inr f ↦ rw f refl
            ]))
    ]

subscribe-IsConsistent :
    (args : List Bytes) (ctx : Context)
    → IsConsistent ctx
    → IsConsistent (subscribe args ctx).1 × SparesOthers ctx (subscribe args ctx).1
unfolding subscribe subscribe_body
subscribe-IsConsistent [] ctx h =
    rw (command_handler_permitted (codes "subscribe") (subscribe_body []) ctx refl)
      (h, λ t c e. refl)
subscribe-IsConsistent (channel ∷ args) ctx h =
    rw (command_handler_permitted (codes "subscribe") (subscribe_body (channel ∷ args)) ctx refl)
      (add_token-IsConsistent channel ctx h, add_token-SparesOthers channel ctx)

unsubscribe-IsConsistent :
    (args : List Bytes) (ctx : Context)
    → IsConsistent ctx
    → IsConsistent (unsubscribe args ctx).1 × SparesOthers ctx (unsubscribe args ctx).1
unfolding unsubscribe unsubscribe_body unsubscribe_in
unsubscribe-IsConsistent args ctx h =
    rw (command_handler_permitted (codes "unsubscribe") (unsubscribe_body args) ctx refl)
      (inside ctx.is_pubsub args)
  where
    inside :
        (mode : Bool) (args' : List Bytes)
        → IsConsistent (unsubscribe_in mode args' ctx).1
          × SparesOthers ctx (unsubscribe_in mode args' ctx).1
    inside false args' = (h, λ t c e. refl)
    inside true [] = (h, λ t c e. refl)
    inside true (channel ∷ args') =
        (leave-IsConsistent channel ctx h, leave-SparesOthers channel ctx)

-- SUBSCRIBE and UNSUBSCRIBE, with any arguments and whether or not the client is in the pub/sub mode, keep
-- the tokens under the channels in agreement with the client's subscriptions, and leave the other clients'
-- tokens under each channel as many as they are.
pub subscriptions-IsConsistent :
    (args : List Bytes) (ctx : Context)
    → IsConsistent ctx
    → (IsConsistent (subscribe args ctx).1 × SparesOthers ctx (subscribe args ctx).1)
      × (IsConsistent (unsubscribe args ctx).1 × SparesOthers ctx (unsubscribe args ctx).1)
subscriptions-IsConsistent args ctx h =
    (subscribe-IsConsistent args ctx h, unsubscribe-IsConsistent args ctx h)
