-- ===== src/Routes/Tests.antt =====
-- A member of one organization renames another.
use ddash.Base.{pos, negsuc, true, false, [], ◌∷◌, map, none, some, ◌≡◌, refl}
use ddash.Base.Text.Parse.{parse_int}
use ddash.Base.Text.{trim_space, is_empty}
use ddash.Store.{no_links, no_settings}
use ddash.Store.Queries.{set_name}
use ddash.Routes.Organizations.{Request, Exchange, route_organization_rename}
use ddash.Routes.Organizations.Guard.{name_taken}
use ddash.Routes.Organizations.Membership.{chosen, route_organization_rename-unguarded}
use ddash.Store.Adapter.{Organization}
use ddash.Effect.{ok}
use ddash.Identity.Access.{get_active_or_default_organization_for_user}

abbrev quiet : Exchange
quiet = record {
  world = record {
    db = record {
      organizations =
          (record {
            id = pos 3;
            name = "home";
            auth_token = "token3";
            webhook_secret = "secret3";
            enabled = true;
            join_code = none;
          })
          ∷ (record {
            id = pos 7;
            name = "acme";
            auth_token = "token";
            webhook_secret = "secret";
            enabled = true;
            join_code = none;
          })
          ∷ [];
      next_organization = 8;
      users = [];
      next_user = 1;
      members = (record { organization_id = pos 3; user_id = pos 5; role = "member" }) ∷ [];
      join_requests = [];
      log = record { rows = []; next_seq = 1 };
      projected = [];
      links = no_links;
      dependencies = [];
      settings = no_settings;
    };
    faults = [];
    entropy = [];
  };
  location = none;
}

-- User 5 acts on organization 3, and has no role in organization 7.
abbrev form : Request
form = record {
  auth_user = some (pos 5);
  active_organization = pos 3;
  session_error = none;
  organization_id = " 7";
  name = "mine ";
}

abbrev own : Organization
own = record {
  id = pos 3;
  name = "home";
  auth_token = "token3";
  webhook_secret = "secret3";
  enabled = true;
  join_code = "";
}

id_parsed : parse_int (trim_space form.organization_id) ≡ some (pos 7)
unfolding parse_int trim_space
id_parsed = refl

low : parse_int "-9223372036854775808" ≡ some (negsuc 9223372036854775807)
unfolding parse_int
low = refl

out_of_range : parse_int "9223372036854775808" ≡ none
unfolding parse_int
out_of_range = refl

full_name : is_empty (trim_space form.name) ≡ false
unfolding trim_space
full_name = refl

free_name : name_taken (pos 7) (trim_space form.name) quiet.world.db ≡ false
unfolding trim_space
free_name = refl

enters : (get_active_or_default_organization_for_user (pos 5) (pos 3) quiet.world).0 ≡ ok own
unfolding get_active_or_default_organization_for_user ddash.Effect.◌>>=◌
    ddash.Store.Adapter.get_organization_by_id ddash.Store.call
    ddash.Store.Queries.get_organization_by_id ddash.Base.int_eq
    ddash.Store.Adapter.map_organization ddash.Store.Adapter.get_organization_member_role
    ddash.Store.Queries.get_organization_member_role
enters = refl

stays : (chosen (pos 5) (pos 3) quiet).world.faults ≡ []
unfolding get_active_or_default_organization_for_user ddash.Effect.◌>>=◌
    ddash.Store.Adapter.get_organization_by_id ddash.Store.call
    ddash.Store.Queries.get_organization_by_id ddash.Base.int_eq
    ddash.Store.Adapter.map_organization ddash.Store.Adapter.get_organization_member_role
    ddash.Store.Queries.get_organization_member_role
stays = refl

route_organization_rename-unguarded_example :
    (route_organization_rename form quiet).1.world.db.organizations
    ≡ map (set_name (pos 7) (trim_space form.name)) quiet.world.db.organizations
route_organization_rename-unguarded_example =
    route_organization_rename-unguarded form (pos 5) (pos 7) own quiet refl refl refl enters stays
      id_parsed refl full_name free_name
