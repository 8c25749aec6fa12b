-- ===== src/Api/Reset/Topic.antt =====
-- portfolio/kafka_client.py: `reset_topic`. How each call of the admin client fares is an argument; what
-- the topic holds after a creation that is not answered with success is given with it.
use cloud_portfolio.Prelude.{
  ◌≡◌, refl, sym, subst, Bool, true, false, Option, none, some, List, [], ◌∷◌,
}
use cloud_portfolio.Errors.{Error, Result, ok, err}

-- `delete_topics`: done, answered by `UnknownTopicOrPartitionError`, or raising before or after it is done.
pub data Deletion : Type 0 where
  deleted unknown_topic : Deletion
  undeleted deleted_unheard : Error → Deletion

-- `create_topics`: done, answered by `TopicAlreadyExistsError`, or raising.
pub data Creation (A : Type 0) : Type 0 where
  created : Creation A
  already_exists : List A → Creation A
  uncreated : Error → List A → Creation A

-- The calls of one reset: each look at the list of topics until the deadline says whether it still has
-- the topic.
pub record TopicAdmin (A : Type 0) : Type 0 where
  pub connection : Option Error
  pub deletion : Deletion
  pub listings : List (Result Bool)
  pub creation : Creation A
  pub closing : Option Error

-- The wait for the topic to be gone.
await_gone : List (Result Bool) → Result (Unit {0})
await_gone [] = ok tt
await_gone (ok true ∷ listings) = await_gone listings
await_gone (ok false ∷ listings) = ok tt
await_gone (err e ∷ listings) = err e

created_topic : {A : Type 0} → Creation A → Result (Unit {0}) × List A
created_topic created = (ok tt, [])
created_topic (already_exists left) = (ok tt, left)
created_topic (uncreated e left) = (err e, left)

after_wait : {A : Type 0} → Creation A → List A → Result (Unit {0}) → Result (Unit {0}) × List A
unfolding created_topic
after_wait creation records (err e) = (err e, records)
after_wait creation records (ok u) = created_topic creation

after_deletion : {A : Type 0} → TopicAdmin A → Deletion → List A → Result (Unit {0}) × List A
unfolding after_wait await_gone
after_deletion admin deleted records = after_wait admin.creation [] (await_gone admin.listings)
after_deletion admin unknown_topic records =
    after_wait admin.creation records (await_gone admin.listings)
after_deletion admin (undeleted e) records = (err e, records)
after_deletion admin (deleted_unheard e) records = (err e, [])

-- `client.close()` in the `finally`.
closed : {A : Type 0} → Option Error → Result (Unit {0}) × List A → Result (Unit {0}) × List A
closed none (r, records) = (r, records)
closed (some e) (r, records) = (err e, records)

connected : {A : Type 0} → TopicAdmin A → Option Error → List A → Result (Unit {0}) × List A
unfolding after_deletion closed
connected admin (some e) records = (err e, records)
connected admin none records = closed admin.closing (after_deletion admin admin.deletion records)

-- `reset_topic`
unfoldable pub reset_topic : {A : Type 0} → TopicAdmin A → List A → Result (Unit {0}) × List A
unfolding connected
reset_topic admin records = connected admin admin.connection records

-- What a creation leaves that counts as done: a new topic, or the one that the broker reports.
abbrev pub IsNew : {A : Type 0} → Creation A → List A → Type 0
IsNew created records = records ≡ []
IsNew (already_exists left) records = records ≡ left
IsNew (uncreated e left) records = ⊥

abbrev pub IsNewTopic : {A : Type 0} → TopicAdmin A → Result (Unit {0}) × List A → Type 0
IsNewTopic admin (ok u, records) = IsNew admin.creation records
IsNewTopic admin (err e, records) = Unit

module _ {A : Type 0} (admin : TopicAdmin A) where
  created_topic-IsNewTopic :
      (c : Creation A) → admin.creation ≡ c → IsNewTopic admin (created_topic c)
  unfolding created_topic
  created_topic-IsNewTopic created e = subst (λ c. IsNew c []) (sym e) refl
  created_topic-IsNewTopic (already_exists left) e = subst (λ c. IsNew c left) (sym e) refl
  created_topic-IsNewTopic (uncreated x left) e = tt

  after_wait-IsNewTopic :
      (records : List A) (r : Result (Unit {0}))
      → IsNewTopic admin (after_wait admin.creation records r)
  unfolding after_wait
  after_wait-IsNewTopic records (err e) = tt
  after_wait-IsNewTopic records (ok u) = created_topic-IsNewTopic admin.creation refl

  after_deletion-IsNewTopic :
      (d : Deletion) (records : List A) → IsNewTopic admin (after_deletion admin d records)
  unfolding after_deletion
  after_deletion-IsNewTopic deleted records = after_wait-IsNewTopic [] (await_gone admin.listings)
  after_deletion-IsNewTopic unknown_topic records =
      after_wait-IsNewTopic records (await_gone admin.listings)
  after_deletion-IsNewTopic (undeleted e) records = tt
  after_deletion-IsNewTopic (deleted_unheard e) records = tt

  closed-IsNewTopic :
      (o : Option Error) (p : Result (Unit {0}) × List A)
      → IsNewTopic admin p
      → IsNewTopic admin (closed o p)
  unfolding closed
  closed-IsNewTopic none (r, records) h = h
  closed-IsNewTopic (some e) (r, records) h = tt

  connected-IsNewTopic :
      (o : Option Error) (records : List A) → IsNewTopic admin (connected admin o records)
  unfolding connected
  connected-IsNewTopic (some e) records = tt
  connected-IsNewTopic none records =
      closed-IsNewTopic admin.closing (after_deletion admin admin.deletion records)
        (after_deletion-IsNewTopic admin.deletion records)

  -- A reset that returns has left a new topic, or the one that the broker reports as there.
  pub reset_topic-IsNewTopic : (records : List A) → IsNewTopic admin (reset_topic admin records)
  unfolding reset_topic
  reset_topic-IsNewTopic records = connected-IsNewTopic admin.connection records
