-- ===== src/Tests/Proxy.antt =====
-- The proxy's theorems on the stub backend.

use osclientcerts.Proxy.Identical.{IsIdentical, proxy-IsIdentical}
use osclientcerts.Tests.Base.{B, os, opened}

proxy-IsIdentical_example : IsIdentical B os opened
proxy-IsIdentical_example = proxy-IsIdentical B os opened
