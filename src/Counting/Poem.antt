-- ===== src/Counting/Poem.antt =====
-- The sentences of A5/multiprocess.c. main puts all of them in each results file; of
-- Multiprocessing2.txt it puts in a first part without the second sentence, or the rest.
use computersystems_monorepo.Prelude.{List, [], ◌∷◌, ◌++◌}
use computersystems_monorepo.Posix.{Bytes}
use computersystems_monorepo.CText.{codes}

abbrev pub line : Bytes → Bytes
line text = text ++ b'\n' ∷ []

-- The bytes of the apostrophe in the source's UTF-8.
abbrev pub apostrophe : Bytes
apostrophe = 226 ∷ 128 ∷ 153 ∷ []

-- The sentences from the third on, which both texts have.
unfoldable pub from_third : List Bytes
from_third =
    line (codes "I reached for the last bouquet of flowers you gave me.")
    ∷ line (codes "Now wilting in their vase one by one.")
    ∷ line (codes "I popped their heads off and ate them.")
    ∷ line (codes "I stuffed a towel at the foot of every door leave.")
    ∷ line (codes "I told the air i have no use for you.")
    ∷ line (codes "I drew every curtain in the house.")
    ∷ line (codes "Go I told the light no one is coming in and no one is going out.")
    ∷ line (codes "you left and I wanted you still yet.")
    ∷ line (codes "I deserved someone who was willing to stay?")
    ∷ line (codes "I spend days in bed debilitated by loss.")
    ∷ line
        (codes "I attempt to cry you back but the water is done and still you have not returned?")
    ∷ line (codes "I pinch my belly till it bleeds.")
    ∷ line (codes "I have lost count of the days sun becomes moon and moon becomes sun.")
    ∷ line (codes "I become a ghost!")
    ∷ line (codes "A dozen different thoughts tear through me each second.")
    ∷ line (codes "You must be on your way perhaps.")
    ∷ line (codes "It" ++ apostrophe ++ codes "s best if you" ++ apostrophe ++ codes "re not!")
    ∷ line (codes "I am okay.")
    ∷ line (codes "no, I am angry.")
    ∷ line (codes "Yes, I hate you.")
    ∷ line (codes "Maybe I can" ++ apostrophe ++ codes "t move on.")
    ∷ line (codes "I will forgive you.")
    ∷ line (
        codes
          "I want to rip my hair out over and over and over again till my mind exhausts itself into a silence.")
    ∷ []

unfoldable pub with_punctuation : List Bytes
with_punctuation =
    line (codes "On the last day of love my heart cracked inside my body.") ∷ from_third

unfoldable pub without_punctuation : List Bytes
without_punctuation =
    line (codes "Yesterday the rain tried to imitate my hands by running down your body,")
    ∷ line (codes "I ripped the sky apart for allowing it,")
    ∷ line (codes "The hummingbirds tell me you" ++ apostrophe ++ codes "ve changed your hair")
    ∷ line (
        codes "I tell them I don"
        ++ apostrophe
        ++ codes "t care while listening to them describe every detai")
    ∷ line (codes "I envy the winds who still witness you")
    ∷ []

-- What a results file gets: the calls of `fputs` in their order.
unfoldable pub sentences : List Bytes
sentences =
    line (codes "On the last day of love my heart cracked inside my body.")
      ∷ line (codes "I spent the entire night casting spells to bring you back.")
      ∷ from_third
    ++ without_punctuation
