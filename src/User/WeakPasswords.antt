-- ===== src/User/WeakPasswords.antt =====
-- internal/user/password_strength.go: the list of common passwords.
use Prim.Native.String.{String}
use mathlib.Core.List.{List, [], ◌∷◌}

unfoldable pub common_weak_passwords : List String
common_weak_passwords =
    "123456" ∷ "password" ∷ "12345678" ∷ "qwerty" ∷ "123456789" ∷ "12345" ∷ "1234" ∷ "111111"
    ∷ "1234567" ∷ "dragon" ∷ "123123" ∷ "baseball" ∷ "iloveyou" ∷ "trustno1" ∷ "1234567890"
    ∷ "sunshine" ∷ "master" ∷ "123321" ∷ "letmein" ∷ "696969" ∷ "shadow" ∷ "michael" ∷ "superman"
    ∷ "1qaz2wsx" ∷ "7777777" ∷ "121212" ∷ "000000" ∷ "qazwsx" ∷ "123qwe" ∷ "killer" ∷ "jordan"
    ∷ "jennifer" ∷ "hunter" ∷ "buster" ∷ "soccer" ∷ "harley" ∷ "batman" ∷ "andrew" ∷ "tigger"
    ∷ "charlie" ∷ "robert" ∷ "thomas" ∷ "hockey" ∷ "ranger" ∷ "daniel" ∷ "starwars" ∷ "112233"
    ∷ "george" ∷ "computer" ∷ "michelle" ∷ "jessica" ∷ "pepper" ∷ "1111" ∷ "zxcvbn" ∷ "555555"
    ∷ "11111111" ∷ "131313" ∷ "freedom" ∷ "777777" ∷ "pass" ∷ "maggie" ∷ "159753" ∷ "aaaaaa"
    ∷ "ginger" ∷ "princess" ∷ "joshua" ∷ "cheese" ∷ "amanda" ∷ "summer" ∷ "ashley" ∷ "6969"
    ∷ "nicole" ∷ "chelsea" ∷ "biteme" ∷ "matthew" ∷ "access" ∷ "yankees" ∷ "987654321" ∷ "dallas"
    ∷ "austin" ∷ "thunder" ∷ "taylor" ∷ "matrix" ∷ "mustang" ∷ "ninja" ∷ "welcome" ∷ "welcome1"
    ∷ "admin" ∷ "administrator" ∷ "admin123" ∷ "root" ∷ "toor" ∷ "changeme" ∷ "letmein1"
    ∷ "password1" ∷ "passw0rd" ∷ "p@ssw0rd" ∷ "passw0rd!" ∷ "password1!" ∷ "qwerty123"
    ∷ "qwertyuiop" ∷ "1q2w3e4r" ∷ "1q2w3e4r5t" ∷ "zaq1zaq1" ∷ "aa123456" ∷ "asdfghjkl" ∷ "abc12345"
    ∷ "abcd1234" ∷ "1qaz2wsx3edc" ∷ "iloveyou1" ∷ "whatever" ∷ "trustme" ∷ "letmein123"
    ∷ "changeme123" ∷ "temppass" ∷ "temp123" ∷ "guest" ∷ "guest123" ∷ "test123" ∷ "testing"
    ∷ "default" ∷ "default123" ∷ "incorrect" ∷ "wordpass" ∷ "mypassword" ∷ "mypassword1"
    ∷ "hello123" ∷ "hello1" ∷ "welcome123" ∷ "abc123" ∷ "monkey" ∷ "football" ∷ "jesus" ∷ "flower"
    ∷ "hottie" ∷ "loveme" ∷ "biteme1" ∷ "sunshine1" ∷ []
