-- ===== src/Wiring.antt =====
-- What the constructors of the components ask the component context for: the constructors of src,
-- chat-service/src and counter-service/src. A component goes by its name.
pub mod Names
pub mod Classes
pub mod Programs
pub mod Start
pub mod Scopes
use otus_highload_architect.Prelude.{List, [], ◌∷◌, Text}
use otus_highload_architect.Wiring.Names.{
  postgres, redis, rabbitmq, auth_cache, grpc_client_factory, dialog_grpc_client,
  counter_grpc_client, post_feed_cache, post_feed_ws_manager, post_feed_publisher,
}
use otus_highload_architect.Wiring.Classes.{
  postgres_class, redis_class, rabbitmq_class, auth_cache_class, grpc_client_factory_class,
  dialog_grpc_client_class, counter_grpc_client_class, post_feed_cache_class,
  post_feed_ws_manager_class, post_feed_publisher_class,
}

-- A component of a program under its name: its class, and the components that it finds when it is
-- constructed, by name, each as a component of some class.
abbrev pub Program : Type 0
Program = List (Text × (Text × List (Text × Text)))

-- What those of userver find by the configuration of the monolith: `pgcomponent` and
-- `factory-component` of configs/static_config.yaml.
abbrev pub auth_cache_needs : List (Text × Text)
auth_cache_needs = (postgres, postgres_class) ∷ []

abbrev pub grpc_client_needs : List (Text × Text)
grpc_client_needs = (grpc_client_factory, grpc_client_factory_class) ∷ []

-- `CheckerFactory`, which makes the checker of every handler that asks for a bearer token.
abbrev pub checker_factory_needs : List (Text × Text)
checker_factory_needs = (auth_cache, auth_cache_class) ∷ []

-- `PostFeedCache`
abbrev pub post_feed_cache_needs : List (Text × Text)
post_feed_cache_needs = (postgres, postgres_class) ∷ (redis, redis_class) ∷ []

-- `PostFeedWsManager`
abbrev pub post_feed_ws_manager_needs : List (Text × Text)
post_feed_ws_manager_needs = (postgres, postgres_class) ∷ []

-- `PostFeedPublisher`, with `rabbit_name` from the configuration
abbrev pub post_feed_publisher_needs : List (Text × Text)
post_feed_publisher_needs = (rabbitmq, rabbitmq_class) ∷ []

-- `PostFeedConsumer`
abbrev pub post_feed_consumer_needs : List (Text × Text)
post_feed_consumer_needs =
    (post_feed_cache, post_feed_cache_class) ∷ (rabbitmq, rabbitmq_class) ∷ []

-- `WsFanoutConsumer`
abbrev pub ws_fanout_consumer_needs : List (Text × Text)
ws_fanout_consumer_needs =
    (rabbitmq, rabbitmq_class) ∷ (post_feed_ws_manager, post_feed_ws_manager_class) ∷ []

-- `UserRegisterHandler`
abbrev pub user_register_handler_needs : List (Text × Text)
user_register_handler_needs = (postgres, postgres_class) ∷ []

-- `UserGetHandler`
abbrev pub user_get_handler_needs : List (Text × Text)
user_get_handler_needs = (postgres, postgres_class) ∷ []

-- `UserSearchHandler`
abbrev pub user_search_handler_needs : List (Text × Text)
user_search_handler_needs = (postgres, postgres_class) ∷ []

-- `Login`
abbrev pub login_handler_needs : List (Text × Text)
login_handler_needs = (postgres, postgres_class) ∷ (auth_cache, auth_cache_class) ∷ []

-- `FriendAddHandler`
abbrev pub friend_add_handler_needs : List (Text × Text)
friend_add_handler_needs =
    (postgres, postgres_class) ∷ (post_feed_cache, post_feed_cache_class) ∷ []

-- `FriendDeleteHandler`
abbrev pub friend_delete_handler_needs : List (Text × Text)
friend_delete_handler_needs =
    (postgres, postgres_class) ∷ (post_feed_cache, post_feed_cache_class) ∷ []

-- `PostCreateHandler`
abbrev pub post_create_handler_needs : List (Text × Text)
post_create_handler_needs =
    (postgres, postgres_class) ∷ (post_feed_publisher, post_feed_publisher_class) ∷ []

-- `PostUpdateHandler`
abbrev pub post_update_handler_needs : List (Text × Text)
post_update_handler_needs =
    (postgres, postgres_class) ∷ (post_feed_cache, post_feed_cache_class) ∷ []

-- `PostDeleteHandler`
abbrev pub post_delete_handler_needs : List (Text × Text)
post_delete_handler_needs =
    (postgres, postgres_class) ∷ (post_feed_cache, post_feed_cache_class) ∷ []

-- `PostGetHandler`
abbrev pub post_get_handler_needs : List (Text × Text)
post_get_handler_needs = (postgres, postgres_class) ∷ []

-- `PostFeedHandler`
abbrev pub post_feed_handler_needs : List (Text × Text)
post_feed_handler_needs = (post_feed_cache, post_feed_cache_class) ∷ []

-- `PostFeedWsHandler`
abbrev pub post_feed_ws_handler_needs : List (Text × Text)
post_feed_ws_handler_needs = (post_feed_ws_manager, post_feed_ws_manager_class) ∷ []

-- `DialogSendHandler`
abbrev pub dialog_send_handler_needs : List (Text × Text)
dialog_send_handler_needs = (dialog_grpc_client, dialog_grpc_client_class) ∷ []

-- `DialogListHandler`
abbrev pub dialog_list_handler_needs : List (Text × Text)
dialog_list_handler_needs =
    (dialog_grpc_client, dialog_grpc_client_class)
    ∷ (counter_grpc_client, counter_grpc_client_class)
    ∷ []

-- `DialogUnreadHandler`
abbrev pub dialog_unread_handler_needs : List (Text × Text)
dialog_unread_handler_needs = (counter_grpc_client, counter_grpc_client_class) ∷ []

-- `DialogServiceComponent` of chat-service
abbrev pub dialog_service_needs : List (Text × Text)
dialog_service_needs = (redis, redis_class) ∷ (rabbitmq, rabbitmq_class) ∷ []

-- `CounterServiceComponent`
abbrev pub counter_service_needs : List (Text × Text)
counter_service_needs = (redis, redis_class) ∷ []

-- `CounterConsumer`
abbrev pub counter_consumer_needs : List (Text × Text)
counter_consumer_needs = (redis, redis_class) ∷ (rabbitmq, rabbitmq_class) ∷ []

-- `CounterReconciler`
abbrev pub counter_reconciler_needs : List (Text × Text)
counter_reconciler_needs = (redis, redis_class) ∷ []
