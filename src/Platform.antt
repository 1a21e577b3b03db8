-- ===== src/Platform.antt =====
-- The session of WhyNotGrace's own staff: frontend/src/api/platformClient.ts,
-- frontend/src/stores/platformAuthStore.ts and frontend/src/hooks/usePlatformAuthBootstrap.ts are the
-- business client, store and bootstrap again, over another user type and other endpoints, each with
-- state of its own.
use why_not_grace_pos.Prelude.{String}
use why_not_grace_pos.Auth.{AuthStore}
use why_not_grace_pos.Auth.Bootstrap.{Boot, BootEvent, boot_step}
use why_not_grace_pos.Request.{platform_endpoints}
use why_not_grace_pos.Client.{Client, Event, step}

-- `R` is the type of the platform's roles, which the client only shows.
pub record PlatformUserOut (R : Type 0) : Type 0 where
  pub id : String
  pub first_name : String
  pub last_name : String
  pub email : String
  pub role : R

module _ {R : Type 0} where
  unfoldable pub platform_step :
      Client (PlatformUserOut R) → Event (PlatformUserOut R) → Client (PlatformUserOut R)
  unfolding step
  platform_step = step platform_endpoints

  unfoldable pub platform_boot_step :
      Boot (PlatformUserOut R) → BootEvent (PlatformUserOut R) → Boot (PlatformUserOut R)
  unfolding boot_step
  platform_boot_step = boot_step

abbrev pub PlatformAuthStore : Type 0 → Type 0
PlatformAuthStore R = AuthStore (PlatformUserOut R)
